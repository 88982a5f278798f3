-- ===== src/Start/Follow.antt =====
-- What `Propose` and `follow` of src/pkg/doozer.go give.
use doozer.Common.{
  ℤ, pos, ◌≤ℤ◌, ◌<ℤ◌, ltb_ℤ, leb_ℤ, true, false, if_cases, ◌⊎◌, Bytes, bytes_eq, bytes_eq_iff,
  bytes_eq_refl, List, [], ◌∷◌, ◌++◌, map, All, Option, none, some, ◌≡◌, ◌≢◌, refl, ap, ◌∙◌, arith,
  Bool-cases, inl, inr,
}
use doozer.Store.Error.{Texts}
use doozer.Store.Path.{check_path, split}
use doozer.Store.Mutation.{Encoded, encode_set, must_encode_set, must}
use doozer.Store.Node.{Node, node, clobber, entries_of, at}
use doozer.Store.Node.Lookup.{at_or_zero}
use doozer.Store.Event.{Event}
use doozer.Store.Apply.{check, apply}
use doozer.Store.Apply.Effects.{setp-kept}
use doozer.Store.Apply.Encoded.{wanted, applied, encode_set-err}
use doozer.Store.Process.{zero_event}
use doozer.Client.Calls
use doozer.Server.Propose.{Waited, blocked, ready, wait}
use doozer.Start.{
  Prop, Position, Proposing, finished, sent_first, awaited, propose_from, propose, op_of, follow_op,
}

unequal : (s t : Bytes) → s ≢ t → bytes_eq s t ≡ false
unequal s t n = elim (Bool-cases (bytes_eq s t)) [
  | inl e ↦ absurd (n ((bytes_eq_iff s t).0 e))
  | inr e ↦ e
]

-- The position is one that the store waits for, and its store is a past state of one whose log is `log`.
abbrev pub IsOpen : (ℤ → Option Event) → Position → Type 0
IsOpen log p =
    (pos 1 ≤ℤ p.seqn)
    × (p.store.head ≤ℤ p.seqn)
    × ((p.store.ver <ℤ p.seqn) ⊎ (p.store.log p.seqn ≡ log p.seqn))

-- The position goes to another mutation.
abbrev pub IsTaken : (ℤ → Option Event) → Bytes → Position → Type 0
IsTaken log v p = IsOpen log p × ((x : Event) × (log p.seqn ≡ some x) × (x.mut ≢ v))

abbrev pub prop_of : Bytes → Position → Prop
prop_of v p = record { seqn = p.seqn; mut = v }

module _ (log : ℤ → Option Event) (v : Bytes) where
  -- In a turn at an open position the proposal for it is sent, and the event at it is taken.
  turns :
      (p : Position) (e : Event) (onward : Event → Proposing)
      → IsOpen log p
      → log p.seqn ≡ some e
      → awaited onward (prop_of v p) (log p.seqn) (wait p.store p.seqn)
        ≡ sent_first (prop_of v p) (onward e)
  unfolding wait
  turns p e onward (l, h, s) k =
      if_cases Good (ltb_ℤ p.seqn (pos 1))
        (λ f. let g : p.seqn <ℤ pos 1 = ground arith in absurd (omega (arith, l, g)))
        (λ _.
          if_cases Good (ltb_ℤ p.seqn p.store.head)
            (λ f. let g : p.seqn <ℤ p.store.head = ground arith in absurd (omega (arith, h, g)))
            (λ _. if_cases Good (leb_ℤ p.seqn p.store.ver) (λ f. logged f s) (λ _. at_later)))
    where
      Good : Waited → Type 0
      Good w = awaited onward (prop_of v p) (log p.seqn) w ≡ sent_first (prop_of v p) (onward e)

      at_later : Good blocked
      at_later = rw k refl

      logged :
          leb_ℤ p.seqn p.store.ver ≡ true
          → ((p.store.ver <ℤ p.seqn) ⊎ (p.store.log p.seqn ≡ log p.seqn))
          → Good (elim (p.store.log p.seqn) [ none ↦ blocked | some x ↦ ready x ])
      logged f (inl b) =
          let g : p.seqn ≤ℤ p.store.ver = ground arith in absurd (omega (arith, g, b))
      logged f (inr b) = rw (b ∙ k) refl

  finds :
      (before : List Position) (p : Position) (after : List Position) (e e' : Event)
      → e'.mut ≢ v
      → All (IsTaken log v) before
      → IsOpen log p
      → log p.seqn ≡ some e
      → e.mut ≡ v
      → propose_from log v (before ++ p ∷ after) e'
        ≡ record { props = map (prop_of v) (before ++ p ∷ []); ending = finished e }
  unfolding propose_from map
  finds [] p after e e' n hs o k m =
      rw (unequal e'.mut v n)
        (turns p e (propose_from log v after) o k ∙ ap (sent_first (prop_of v p)) (at_once after))
    where
      at_once :
          (after : List Position)
          → propose_from log v after e ≡ record { props = []; ending = finished e }
      at_once [] = rw (m, bytes_eq_refl v) refl
      at_once (x ∷ xs) = rw (m, bytes_eq_refl v) refl
  finds (q ∷ before) p after e e' n ((oq, (x, lx, mx)), hs) o k m = rw (unequal e'.mut v n) (
      turns q x (propose_from log v (before ++ p ∷ after)) oq lx
      ∙ ap (sent_first (prop_of v q)) (finds before p after e x mx hs o k m))

-- `Propose` sends the mutation as a proposal for each position that the manager gives, in order, up to the
-- first at which the store applies that mutation, and gives the event there; the positions before it
-- went to other mutations, and no position is asked for after it. The mutation is not empty, each
-- position is positive and not cleaned from the store, and the store at that time is not past
-- the position or has the event that is applied there.
pub propose-finds :
    (log : ℤ → Option Event) (v : Bytes) (before : List Position) (p : Position)
    (after : List Position) (e : Event)
    → [] ≢ v
    → All (IsTaken log v) before
    → IsOpen log p
    → log p.seqn ≡ some e
    → e.mut ≡ v
    → propose log v (before ++ p ∷ after)
      ≡ record { props = map (prop_of v) (before ++ p ∷ []); ending = finished e }
unfolding propose
propose-finds log v before p after e n hs o k m = finds log v before p after e zero_event n hs o k m

must-encoded : (e : Encoded) → e.err ≡ none → must e ≡ some e.mutation
must-encoded e h = rw (must, h) refl

-- Whatever the flag of an event that is followed, a set or a deletion, the operation for it leaves a
-- file at its path, with its body and its revision. The path passes the check, and the tree accepts
-- a set of it at any revision.
pub follow_op-file :
    (tx : Texts) (n : Node) (ev : Calls.Event)
    → check_path ev.path ≡ none
    → check n (wanted ev.path ev.body clobber) ≡ none
    → (mut : Bytes) × (follow_op ev ≡ some (record { seqn = ev.rev; mut = mut }))
      × (at (split ev.path) (apply tx n ev.rev mut).0
          ≡ some (node ev.body ev.rev (entries_of (at_or_zero (split ev.path) n))))
unfolding follow_op must_encode_set
follow_op-file tx n ev h c =
    let e = encode_set ev.path ev.body clobber in
    (
      e.mutation,
      ap (op_of ev.rev) (must-encoded e (encode_set-err ev.path ev.body clobber h)),
      ap (λ (r : Node × Event). at (split ev.path) r.0)
            (applied tx n ev.rev ev.path ev.body clobber h (omega arith, omega arith) c)
          ∙ setp-kept ev.path ev.body ev.rev n h,
    )
