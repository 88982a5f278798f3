-- ===== src/Client/Conn/Cancel.antt =====
-- `cancel` of src/pkg/client/client.go, and what `readResponses`, `send` and other cancels do meanwhile.
use doozer.Common.{
  ℕ, suc, ◌+◌, ◌^◌, ◌<◌, ℤ, InInt32, true, List, All, Option, none, some, length, lookup, insert,
  lookup-inserted, lookup-erase, length-insert, int_key, eqb_ℤ_iff, ==_iff, ◌≡◌, ◌≢◌, refl, sym, ap,
  subst, ◌∙◌, none≢some,
}
use doozer.Server.Request.{Reply}
use doozer.Client.Conn.{
  Conn, Error, Written, written, unmarshalled, failed, free_tag, finish, send, nowhere, deliver_to,
  read_response, tag_of, own, cancel_start, cancel_end,
}
use doozer.Client.Conn.Steps.{
  Step, take_steps, IsBefore, Keeps, free_tag-apart, with_call, take_steps-Keeps,
}

own-starts :
    (c : Conn) (tag : ℤ) (ch : ℕ)
    → lookup tag c.cb ≡ some (some ch)
    → cancel_start c tag ch ≡ (record c { cb = insert tag none c.cb }, true)
unfolding cancel_start own
own-starts c tag ch e = rw (e, (==_iff ch ch).1 refl) refl

drops :
    (c : Conn) (r : Reply)
    → lookup (tag_of r) c.cb ≡ some none
    → ((read_response c r).1 ≡ nowhere) × ((read_response c r).0.cb ≡ c.cb)
unfolding read_response deliver_to
drops c r e = rw e (refl, refl)

freed : (tag : ℤ) (c : Conn) → lookup tag (cancel_end c tag none).0.cb ≡ none
unfolding cancel_end
freed tag c = lookup-erase tag tag c.cb ∙ rw ((eqb_ℤ_iff tag tag).1 refl) refl

stays : (tag : ℤ) (c : Conn) (e : Error) → (cancel_end c tag (some e)).0.cb ≡ c.cb
unfolding cancel_end
stays tag c e = refl

start-Keeps :
    (c : Conn) (tag : ℤ) (ch : ℕ)
    → lookup tag c.cb ≡ some (some ch)
    → InInt32 c.n
    → Keeps tag (suc (length c.cb)) (cancel_start c tag ch).0
start-Keeps c tag ch e n =
    subst (Keeps tag (suc (length c.cb))) (ap (λ d. d.0) (sym (own-starts c tag ch e))) (record {
      entry = lookup-inserted tag none c.cb;
      small = length-insert tag none c.cb;
      range = n;
    })

finish-apart : (tag t : ℤ) (d : Conn) (w : Written) → t ≢ tag → (finish d t w).1.0 ≢ some tag
unfolding finish
finish-apart tag t d written n f = n (same f)
  where
    same : some t ≡ some tag → t ≡ tag
    same h = cc
finish-apart tag t d (unmarshalled e) n f = none≢some f
finish-apart tag t d (failed e) n f = none≢some f

send-apart :
    (tag : ℤ) (k : ℕ) (c : Conn) (ch : ℕ) (w : Written)
    → k < 2 ^ 32
    → Keeps tag k c
    → (send c ch w).1.0 ≢ some tag
unfolding send
send-apart tag k c ch w few h =
    let t = free_tag (suc (length c.cb)) c.n c.cb in
    elim c.err
      as (λ err.
        (elim err as (λ _. Conn × (Option ℤ × Option Error)) [
          | some e ↦ (c, (none, some e))
          | none ↦ finish (with_call tag k few c h ch) t w
        ]).1.0
        ≢ some tag) [
          | some e ↦ λ f. none≢some f
          | none ↦ finish-apart tag t (with_call tag k few c h ch) w (free_tag-apart tag k few c h)
        ]

-- A cancel of a call has started, and then any requests are sent, replies read, and other cancels
-- started and ended, on a connection that stays open, with fewer than 2 ^ 32 calls and steps together;
-- a call to cancel this tag may fail. As long as it has not succeeded, a reply under the tag goes to no
-- channel and leaves the table as it is, and no request is sent under the tag. When it succeeds the
-- tag is free, and when it fails its entry is kept.
pub cancel-quiet :
    (c : Conn) (tag : ℤ) (ch : ℕ) (ss : List Step) (r : Reply) (ch' : ℕ) (w : Written) (err : Error)
    → lookup tag c.cb ≡ some (some ch)
    → InInt32 c.n
    → suc (length c.cb) + length ss < 2 ^ 32
    → All (IsBefore tag) ss
    → tag_of r ≡ tag
    → ((read_response (take_steps (cancel_start c tag ch).0 ss) r).1 ≡ nowhere)
      × ((read_response (take_steps (cancel_start c tag ch).0 ss) r).0.cb
          ≡ (take_steps (cancel_start c tag ch).0 ss).cb)
      × ((send (take_steps (cancel_start c tag ch).0 ss) ch' w).1.0 ≢ some tag)
      × (lookup tag (cancel_end (take_steps (cancel_start c tag ch).0 ss) tag none).0.cb ≡ none)
      × (lookup tag (cancel_end (take_steps (cancel_start c tag ch).0 ss) tag (some err)).0.cb
          ≡ some none)
cancel-quiet c tag ch ss r ch' w err e n b hs t =
    let c' = take_steps (cancel_start c tag ch).0 ss in
    let k = suc (length c.cb) + length ss in
    let h =
      take_steps-Keeps tag (suc (length c.cb)) (cancel_start c tag ch).0 ss b
        (start-Keeps c tag ch e n) hs in
    let q = drops c' r (ap (λ j. lookup j c'.cb) t ∙ h.entry) in
    (
      q.0,
      q.1,
      send-apart tag k c' ch' w b h,
      freed tag c',
      ap (λ (cb : List (ℤ × Option ℕ)). lookup tag cb) (stays tag c' err) ∙ h.entry,
    )
