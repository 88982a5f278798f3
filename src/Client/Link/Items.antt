-- ===== src/Client/Link/Items.antt =====
-- The requests, handlers and replies of a connection in one line, and what each holds.
use doozer.Common.{
  ℕ, ◌≤◌, ℤ, pos, Bool, true, false≢true, List, [], ◌∷◌, ◌++◌, append_assoc, none≢some, map,
  map-append, length, Option, none, some, lookup, insert, erase, lookup-insert, lookup-erase,
  length-erase, int_key, eqb_ℤ, eqb_ℤ_iff, All, if_cases, All-In, if◌then◌else◌, ◌≡◌, refl, sym, ap,
  subst, ◌∙◌, ◌≢◌, arith,
}
use doozer.Server.Request.{R, Reply, respond, valid_flag, done_flag}
use doozer.Client.Conn.{Conn, read_response, redirect_to, deliver_to, has_flag, tag_of, drop_done}
use doozer.Client.Link.{Link, Call, Sent}
use doozer.Client.Link.Order.{
  Taken, now, later, All-of, All-from_In, All-Taken, All-mapped, Apart, Apart-copy, Apart-move,
}

-- What a call holds: its tag, its channel, and whether it frees the tag.
pub record Item : Type 0 where
  pub tag : ℤ
  pub ch : ℕ
  pub last : Bool

unfoldable pub call_item : Call → Item
call_item q = record { tag = elim q.t.tag [ none ↦ pos 0 | some t ↦ t ]; ch = q.ch; last = true }

unfoldable pub sent_item : Sent → Item
sent_item s = record { tag = tag_of s.r; ch = s.ch; last = has_flag s.r.flags done_flag }

unfoldable pub opens : List Call → List Call → List Item
opens running requests = map call_item running ++ map call_item requests

-- From the first reply that the client reads to the last request that it writes.
unfoldable pub flow : List Sent → List Call → List Call → List Item
flow wire running requests = map sent_item wire ++ opens running requests

unfoldable pub Frees : Item → Item → Type 0
Frees x y = x.last ≡ true → x.tag ≢ y.tag

unfoldable pub Holds : List (ℤ × Option ℕ) → Item → Type 0
Holds cb x = lookup x.tag cb ≡ some (some x.ch)

pub Holds-insert :
    (tag : ℤ) (ch : ℕ) (cb : List (ℤ × Option ℕ))
    → lookup tag cb ≡ none
    → (x : Item) → Holds cb x
    → Holds (insert tag (some ch) cb) x
unfolding Holds
Holds-insert tag ch cb e x h =
    lookup-insert tag x.tag (some ch) cb
    ∙ if_cases (λ o. o ≡ some (some x.ch)) (eqb_ℤ tag x.tag)
        (λ s. absurd (none≢some (sym e ∙ (ap (λ t. lookup t cb) ((eqb_ℤ_iff tag x.tag).0 s) ∙ h))))
        (λ s. h)

pub Holds-erase :
    (tag : ℤ) (cb : List (ℤ × Option ℕ)) (x : Item)
    → tag ≢ x.tag
    → Holds cb x
    → Holds (erase tag cb) x
unfolding Holds
Holds-erase tag cb x n h =
    lookup-erase tag x.tag cb
    ∙ if_cases (λ o. o ≡ some (some x.ch)) (eqb_ℤ tag x.tag)
        (λ s. absurd (n ((eqb_ℤ_iff tag x.tag).0 s))) (λ s. h)

pub call_flow :
    (l : Link) (q : Call)
    → flow l.wire l.running (l.requests ++ q ∷ [])
      ≡ flow l.wire l.running l.requests ++ call_item q ∷ []
unfolding flow opens map
call_flow l q = simp (map-append, append_assoc)

pub accept_flow :
    (l : Link) (q : Call) (qs : List Call)
    → opens (l.running ++ q ∷ []) qs ≡ opens l.running (q ∷ qs)
unfolding opens map
accept_flow l q qs = simp (map-append, append_assoc)

pub wire_flow :
    (ws : List Sent) (s : Sent) (is : List Item)
    → map sent_item (ws ++ s ∷ []) ++ is ≡ map sent_item ws ++ sent_item s ∷ is
unfolding map
wire_flow ws s is = simp (map-append, append_assoc)

pub Frees-fresh :
    (tag : ℤ) (ch : ℕ) (cb : List (ℤ × Option ℕ))
    → lookup tag cb ≡ none
    → (x : Item) → Holds cb x
    → Frees x (record { tag = tag; ch = ch; last = true })
unfolding Frees Holds
Frees-fresh tag ch cb e x h l s = none≢some (sym e ∙ (ap (λ t. lookup t cb) (sym s) ∙ h))

pub Taken-opens :
    {q : Call} {qs rs : List Call} (requests : List Call)
    → Taken q qs rs
    → Taken (call_item q) (opens qs requests) (opens rs requests)
unfolding opens map
Taken-opens requests now = now
Taken-opens requests (later k) = later (Taken-opens requests k)

pub opens_last : (running requests : List Call) → All (λ x. x.last ≡ true) (opens running requests)
unfolding opens map call_item
opens_last [] [] = tt
opens_last [] (q ∷ qs) = (refl, opens_last [] qs)
opens_last (q ∷ qs) requests = (refl, opens_last qs requests)

pub opens_swap :
    (q : Call) (is : List Item)
    → All (λ x. x.last ≡ true) is
    → All (λ x. Frees x (call_item q) → Frees (call_item q) x) is
unfolding Frees
opens_swap q is h = All-mapped (λ x e f _ s. f e (sym s)) is h

-- The reply of a handler, and the handlers that are left, in place of the handler.
pub reply_order :
    (l : Link) (q : Call) (rs : List Call) (flags : ℕ) (body : R)
    → Taken q l.running rs
    → Apart Frees (flow l.wire l.running l.requests)
    → Apart Frees (
        map sent_item l.wire
        ++ sent_item (record { r = respond q.t flags body; ch = q.ch })
          ∷ opens (if has_flag flags done_flag then rs else l.running) l.requests)
unfolding flow Frees sent_item call_item
reply_order l q rs flags body tk h =
    if_cases
      (λ is. Apart Frees (
        map sent_item l.wire
        ++ sent_item (record { r = respond q.t flags body; ch = q.ch }) ∷ opens is l.requests))
      (has_flag flags done_flag)
      (λ e.
        subst
          (λ b. Apart Frees (
            map sent_item l.wire
            ++ record { tag = (call_item q).tag; ch = q.ch; last = b } ∷ opens rs l.requests))
          (sym e)
          (Apart-move Frees (map sent_item l.wire)
            (opens_swap q _ (opens_last l.running l.requests)) (Taken-opens l.requests tk) h))
      (λ e.
        Apart-copy Frees (map sent_item l.wire) (opens l.running l.requests) _
          (λ x a. (All-Taken (Frees x) (Taken-opens l.requests tk) a).0)
          (All-of _ (λ x f. absurd (false≢true (sym e ∙ f))) (opens l.running l.requests)) h)

pub delivered :
    (c : Conn) (r : Reply) (ch : ℕ)
    → lookup (tag_of r) c.cb ≡ some (some ch)
    → read_response c r ≡ (
      record (redirect_to c r.body.err_code r.body.err_detail) {
        cb = drop_done r.flags (tag_of r) c.cb;
      },
      record {
        to = if has_flag r.flags valid_flag then some ch else none;
        closes = has_flag r.flags done_flag;
      },
    )
unfolding read_response deliver_to
delivered c r ch e = rw e refl

pub drop_done-Holds :
    (s : Sent) (cb : List (ℤ × Option ℕ)) (is : List Item)
    → All (Frees (sent_item s)) is
    → All (Holds cb) is
    → All (Holds (drop_done s.r.flags (tag_of s.r) cb)) is
unfolding drop_done Frees sent_item
drop_done-Holds s cb is f h =
    if_cases (λ (m : List (ℤ × Option ℕ)). All (Holds m) is) (has_flag s.r.flags done_flag)
      (λ e. All-from_In (Holds (erase (tag_of s.r) cb)) is (λ x i.
        Holds-erase (tag_of s.r) cb x (All-In (Frees (sent_item s)) f i e) (All-In (Holds cb) h i)))
      (λ e. h)

pub length-drop_done :
    (flags : ℕ) (tag : ℤ) (cb : List (ℤ × Option ℕ)) → length (drop_done flags tag cb) ≤ length cb
unfolding drop_done
length-drop_done flags tag cb =
    if_cases (λ (m : List (ℤ × Option ℕ)). length m ≤ length cb) (has_flag flags done_flag)
      (λ e. length-erase tag cb) (λ e. omega arith)
