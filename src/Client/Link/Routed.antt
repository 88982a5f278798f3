-- ===== src/Client/Link/Routed.antt =====
-- Which call a reply on the wire is of, in a connection of src/pkg/client and src/pkg/server.
use doozer.Common.{
  ℕ, suc, ◌+◌, ◌^◌, ◌≤◌, ◌<◌, ℤ, InInt32, List, [], ◌∷◌, ◌++◌, map, length, Option, none, some,
  lookup, insert, lookup-inserted, length-insert, int_key, All, to_list, if_cases, if◌then◌else◌,
  ◌≡◌, refl, sym, ap, subst, ◌∙◌, arith,
}
use doozer.Server.Request.{T, R, valid_flag, done_flag}
use doozer.Client.Conn.{written, send, read_response, has_flag, tag_of, free_tag}
use doozer.Client.Conn.Tags.{send_lem, free_tag-none, free_tag-InInt32}
use doozer.Client.Link.{
  Link, Call, Sent, Event, call, accept, reply, receive, take_at, called, accepted, replied,
  received, step, run_link, open_link,
}
use doozer.Client.Link.Order.{
  Taken, take_at-Taken, All-append, All-split, All-Taken, All-mapped, Apart, Apart-last,
}
use doozer.Client.Link.Items.{
  call_item, sent_item, opens, flow, Frees, Holds, Holds-insert, call_flow, accept_flow, wire_flow,
  Frees-fresh, Taken-opens, reply_order, length-drop_done, delivered, drop_done-Holds,
}

record IsRouted (k : ℕ) (l : Link) : Type 0 where
  routed : All (Holds l.client.cb) (flow l.wire l.running l.requests)
  order : Apart Frees (flow l.wire l.running l.requests)
  few : length l.client.cb ≤ k
  range : InInt32 l.client.n
  sound : l.client.err ≡ none

call-IsRouted :
    (k : ℕ) (l : Link) (t : T)
    → k < 2 ^ 32
    → IsRouted k l
    → IsRouted (suc k) (called l t (send l.client l.next written))
unfolding Holds call_item
call-IsRouted k l t b h =
    subst (λ r. IsRouted (suc k) (called l t r)) (sym (send_lem l.client l.next h.sound))
      (record {
        routed = subst (All (Holds (insert tag (some l.next) cb))) (sym (call_flow l q)) (
            All-append (Holds (insert tag (some l.next) cb)) (flow l.wire l.running l.requests) _
              (All-mapped (Holds-insert tag l.next cb fresh) (flow l.wire l.running l.requests)
                h.routed)
              (lookup-inserted tag (some l.next) cb, tt));
        order = subst (Apart Frees) (sym (call_flow l q)) (
            Apart-last Frees (flow l.wire l.running l.requests) (call_item q) h.order (
              All-mapped (Frees-fresh tag l.next cb fresh) (flow l.wire l.running l.requests)
                h.routed));
        few = omega (arith, length-insert tag (some l.next) cb, h.few);
        range = free_tag-InInt32 (suc (length cb)) l.client.n cb h.range;
        sound = h.sound;
      })
  where
    cb : List (ℤ × Option ℕ)
    cb = l.client.cb

    tag : ℤ
    tag = free_tag (suc (length cb)) l.client.n cb

    q : Call
    q = record { t = record t { tag = some tag }; ch = l.next }

    fresh : lookup tag cb ≡ none
    fresh = free_tag-none l.client.n cb h.range (omega (arith, b, h.few))

with_flow :
    {k : ℕ} {l : Link} (wire : List Sent) (running requests : List Call)
    → flow l.wire l.running l.requests ≡ flow wire running requests
    → IsRouted k l
    → IsRouted k (record l { wire = wire; running = running; requests = requests })
with_flow {l = l} wire running requests e h = record {
  routed = subst (All (Holds l.client.cb)) e h.routed;
  order = subst (Apart Frees) e h.order;
  few = h.few;
  range = h.range;
  sound = h.sound;
}

accept-IsRouted :
    (k : ℕ) (l : Link) (qs : List Call)
    → l.requests ≡ qs
    → IsRouted k l
    → IsRouted k (accepted l qs)
unfolding flow
accept-IsRouted k l [] e h = h
accept-IsRouted k l (q ∷ qs) e h =
    with_flow l.wire (l.running ++ q ∷ []) qs
      (ap (λ is. map sent_item l.wire ++ is) (ap (opens l.running) e ∙ sym (accept_flow l q qs))) h

reply-IsRouted :
    (k : ℕ) (l : Link) (flags : ℕ) (body : R) (o : Option (Call × List Call))
    → All (λ r. Taken r.0 l.running r.1) (to_list o)
    → IsRouted k l
    → IsRouted k (replied l flags body o)
unfolding flow Holds sent_item call_item
reply-IsRouted k l flags body none tk h = h
reply-IsRouted k l flags body (some (q, rs)) (tk, _) h =
    let (a, b) = All-split (Holds l.client.cb) (map sent_item l.wire) _ h.routed in
    let (p, c) = All-Taken (Holds l.client.cb) (Taken-opens l.requests tk) b in
    let left : All (Holds l.client.cb)
        (opens (if has_flag flags done_flag then rs else l.running) l.requests) =
      if_cases (λ is. All (Holds l.client.cb) (opens is l.requests)) (has_flag flags done_flag)
        (λ _. c) (λ _. b) in
    record {
      routed =
          rw (wire_flow l.wire _ _)
            (All-append (Holds l.client.cb) (map sent_item l.wire) _ a (p, left));
      order = rw (wire_flow l.wire _ _) (reply_order l q rs flags body tk h.order);
      few = h.few;
      range = h.range;
      sound = h.sound;
    }

receive-IsRouted :
    (k : ℕ) (l : Link) (ws : List Sent) → l.wire ≡ ws → IsRouted k l → IsRouted k (received l ws)
unfolding received flow Holds sent_item
receive-IsRouted k l [] e h = h
receive-IsRouted k l (s ∷ ss) e h =
    let all = subst (λ ws. All (Holds l.client.cb) (flow ws l.running l.requests)) e h.routed in
    let order = subst (λ ws. Apart Frees (flow ws l.running l.requests)) e h.order in
    subst (λ d. IsRouted k (record l { client = d.0; wire = ss }))
      (sym (delivered l.client s.r s.ch all.0))
      (record {
        routed = drop_done-Holds s l.client.cb _ order.0 all.1;
        order = order.1;
        few = omega (arith, h.few, length-drop_done s.r.flags (tag_of s.r) l.client.cb);
        range = h.range;
        sound = h.sound;
      })

weaken : {k n : ℕ} {l : Link} → k ≤ n → IsRouted k l → IsRouted n l
weaken b h = record {
  routed = h.routed;
  order = h.order;
  few = omega (arith, b, h.few);
  range = h.range;
  sound = h.sound;
}

step-IsRouted :
    (k : ℕ) (l : Link) (e : Event) → k < 2 ^ 32 → IsRouted k l → IsRouted (suc k) (step l e)
unfolding step
step-IsRouted k l (call t) b h = call-IsRouted k l t b h
step-IsRouted k l accept b h = weaken (omega arith) (accept-IsRouted k l l.requests refl h)
step-IsRouted k l (reply i flags body) b h =
    weaken (omega arith)
      (reply-IsRouted k l flags body (take_at i l.running) (take_at-Taken i l.running) h)
step-IsRouted k l receive b h = weaken (omega arith) (receive-IsRouted k l l.wire refl h)

run_from-IsRouted :
    (k : ℕ) (l : Link) (es : List Event)
    → k + length es ≤ 2 ^ 32
    → IsRouted k l
    → IsRouted (k + length es) (run_link l es)
unfolding run_link
run_from-IsRouted k l [] b h = weaken (omega arith) h
run_from-IsRouted k l (e ∷ es) b h = weaken (omega arith) (
    run_from-IsRouted (suc k) (step l e) es (omega (arith, b))
      (step-IsRouted k l e (omega (arith, b)) h))

open-IsRouted : IsRouted 0 open_link
unfolding flow opens map
open-IsRouted = record {
  routed = tt;
  order = tt;
  few = omega arith;
  range = (omega arith, omega arith);
  sound = refl;
}

-- After any calls, replies and reads of a connection on which nothing is cancelled, the first reply
-- on the wire goes to the channel of the call that it is of, and closes it when it is the last one.
-- The events are at most 2 ^ 32.
pub run_link-routes :
    (es : List Event) (s : Sent) (ss : List Sent)
    → length es ≤ 2 ^ 32
    → (run_link open_link es).wire ≡ s ∷ ss
    → (read_response (run_link open_link es).client s.r).1 ≡ record {
      to = if has_flag s.r.flags valid_flag then some s.ch else none;
      closes = has_flag s.r.flags done_flag;
    }
unfolding flow sent_item Holds map
run_link-routes es s ss b e =
    let l = run_link open_link es in
    let h = run_from-IsRouted 0 open_link es (omega (arith, b)) open-IsRouted in
    let all = subst (λ ws. All (Holds l.client.cb) (flow ws l.running l.requests)) e h.routed in
    ap (λ d. d.1) (delivered l.client s.r s.ch all.0)
