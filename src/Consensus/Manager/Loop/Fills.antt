-- ===== src/Consensus/Manager/Loop/Fills.antt =====
-- The fills that a proposal makes due: `for nextFill < pr.Seqn` of src/pkg/consensus/manager.go.
use doozer.Common.Heap.{push-In, push-In_old}
use doozer.Common.{
  All, List, ◌⊎◌, inl, inr, ℕ, zero, suc, ◌+◌, ◌≤◌, ℤ, pos, pos_part, neg_part, ◌≤ℤ◌, ◌<ℤ◌, ltb_ℤ,
  ◌+ℤ◌, ◌-ℤ◌, ◌+₆₄◌, +ℤ_parts, -ℤ_parts, +₆₄-eq-+ℤ, wrap64-InInt64, one_part, subst, if_cases,
  Option, eq_of_parts, InInt64, Bytes, Bool-cases, In, ◌≡◌, sym, ap, arith, some, [], ◌∷◌,
}
use doozer.Consensus.Message.{M, propose_msg}
use doozer.Consensus.Run.{Trigger, Env, sched_trigger}
use doozer.Consensus.Manager.Triggers.{push_trigger, push_packet}
use doozer.Consensus.Manager.Loop.{Manager, prop, schedule_fills, take_input}

next_lem : (a b : ℤ) → InInt64 a → InInt64 b → a <ℤ b → a +₆₄ pos 1 ≡ a +ℤ pos 1
next_lem a b ha hb h =
    let e = +ℤ_parts a (pos 1) in
    let o = one_part a in
    let o' = one_part (a +ℤ pos 1) in
    let o'' = one_part b in
    +₆₄-eq-+ℤ a (pos 1)
      (omega (arith, e, o, o', o'', ha, hb, h), omega (arith, e, o, o', o'', ha, hb, h))

eq_or_above : (a p : ℤ) → a ≤ℤ p → (p ≡ a) ⊎ (a +ℤ pos 1 ≤ℤ p)
eq_or_above a p h =
    let e = +ℤ_parts a (pos 1) in
    elim (Bool-cases (ltb_ℤ a p)) [
      | inl l ↦ let k : a <ℤ p = ground arith in inr (omega (arith, e, k))
      | inr l ↦ let k : p ≤ℤ a = ground arith in inl (eq_of_parts p a (omega (arith, k, h)))
    ]

module _ (env : Env) (fill_delay : ℤ) where
  -- `mg'` has a fill for every position from `lo` to `hi`, besides those of `mg`.
  pub record Filled (lo hi : ℤ) (mg mg' : Manager) : Type 0 where
    pub next : mg'.next_fill ≡ hi
    pub due : (p : ℤ) → lo ≤ℤ p → p <ℤ hi → In (sched_trigger env p fill_delay) mg'.fills
    pub kept : (t : Trigger) → In t mg.fills → In t mg'.fills

  with_fill : Manager → Manager
  with_fill mg = record mg {
    fills = push_trigger (sched_trigger env mg.next_fill fill_delay) mg.fills;
    next_fill = mg.next_fill +₆₄ pos 1;
  }

  Filled-step :
      (seqn : ℤ) (mg : Manager) {mg' : Manager}
      → mg.next_fill +₆₄ pos 1 ≡ mg.next_fill +ℤ pos 1
      → Filled (mg.next_fill +₆₄ pos 1) seqn (with_fill mg) mg'
      → Filled mg.next_fill seqn mg mg'
  unfolding with_fill push_trigger
  Filled-step seqn mg {mg'} e h = record {
    next = h.next;
    due = λ p l u. elim (eq_or_above mg.next_fill p l) [
      | inl f ↦ rw f (h.kept _ (push-In (λ (t : Trigger). t.t) _ mg.fills))
      | inr g ↦ h.due p (subst (λ a. a ≤ℤ p) (sym e) g) u
    ];
    kept = λ t i. h.kept t (push-In_old (λ (t : Trigger). t.t) t _ mg.fills i);
  }

  pub schedule_fills-Filled :
      (unmarshal : Bytes → Option M) (f : ℕ) (seqn : ℤ) (mg : Manager)
      → InInt64 seqn
      → InInt64 mg.next_fill
      → mg.next_fill ≤ℤ seqn
      → pos_part seqn + neg_part mg.next_fill ≤ f + pos_part mg.next_fill + neg_part seqn
      → Filled mg.next_fill seqn mg (schedule_fills env unmarshal fill_delay f seqn mg)
  unfolding schedule_fills with_fill ◌+₆₄◌
  schedule_fills-Filled unmarshal zero seqn mg hs hn l fuel = record {
    next = eq_of_parts mg.next_fill seqn (omega (arith, l, fuel));
    due = λ p a b. ground arith;
    kept = λ t i. i;
  }
  schedule_fills-Filled unmarshal (suc f) seqn mg hs hn l fuel =
      if_cases (Filled mg.next_fill seqn mg) (ltb_ℤ mg.next_fill seqn)
        (λ k.
          let lt : mg.next_fill <ℤ seqn = ground arith in
          let e = next_lem mg.next_fill seqn hn hs lt in
          let parts = +ℤ_parts mg.next_fill (pos 1) in
          Filled-step seqn mg e (
            schedule_fills-Filled unmarshal f seqn (with_fill mg) hs
              (wrap64-InInt64 (mg.next_fill +ℤ pos 1))
              (subst (λ a. a ≤ℤ seqn) (sym e) (omega (arith, parts, lt)))
              (subst (λ a. pos_part seqn + neg_part a ≤ f + pos_part a + neg_part seqn) (sym e)
                (omega (arith, parts, lt, fuel)))))
        (λ k.
          let ge : seqn ≤ℤ mg.next_fill = ground arith in
          record {
            next = eq_of_parts mg.next_fill seqn (omega (arith, l, ge));
            due = λ p a b. ground arith;
            kept = λ t i. i;
          })

proposed : ℤ → Bytes → Manager → Manager
proposed seqn mut mg = record mg {
  packets = push_packet (record { addr = []; m = propose_msg (some seqn) mut }) mg.packets;
}

-- The first part of a fill, for a position `p` that is at most `seqn`.
due_or_last :
    (env : Env) (fill_delay seqn lo p : ℤ) (mg mg' : Manager)
    → Filled env fill_delay lo seqn mg mg'
    → lo ≤ℤ p
    → p ≤ℤ seqn
    → (p ≡ seqn) ⊎ In (sched_trigger env p fill_delay) mg'.fills
due_or_last env fill_delay seqn lo p mg mg' h l u = elim (eq_or_above p seqn u) [
  | inl e ↦ inl (sym e)
  | inr a ↦ inr (h.due p l (omega (arith, +ℤ_parts p (pos 1), a)))
]

-- After a proposal for `seqn`, which is not below `next_fill`, the next fill is the position after
-- `seqn`, also when the two are equal, and every position `p` from `next_fill` to `seqn` is `seqn` or has
-- a fill; the fills from before stay.
pub take_input-fill :
    (env : Env) (unmarshal : Bytes → Option M) (fill_delay : ℤ) (self : Bytes) (seqn : ℤ)
    (mut : Bytes) (mg : Manager) (p : ℤ) (old : List Trigger)
    → InInt64 seqn
    → InInt64 mg.next_fill
    → mg.next_fill ≤ℤ p
    → p ≤ℤ seqn
    → All (λ (t : Trigger). In t mg.fills) old
    → ((take_input env unmarshal fill_delay self (prop seqn mut) mg).0.next_fill ≡ seqn +₆₄ pos 1)
      × (((p ≡ seqn)
            ⊎ In
                (sched_trigger env p fill_delay)
                (take_input env unmarshal fill_delay self (prop seqn mut) mg).0.fills)
          × All
              (λ (t : Trigger).
                In t (take_input env unmarshal fill_delay self (prop seqn mut) mg).0.fills)
              old)
unfolding take_input proposed
take_input-fill env unmarshal fill_delay self seqn mut mg p old hs hn l u o =
    let parts = -ℤ_parts seqn mg.next_fill in
    let h =
      schedule_fills-Filled env fill_delay unmarshal (pos_part (seqn -ℤ mg.next_fill)) seqn
        (proposed seqn mut mg) hs hn (omega (arith, l, u)) (omega (arith, parts)) in
    (
      ap (λ a. a +₆₄ pos 1) h.next,
      (
        due_or_last env fill_delay seqn mg.next_fill p (proposed seqn mut mg) _ h l u,
        keep_all old o h.kept,
      ),
    )
  where
    keep_all :
        {ts : List Trigger} (old : List Trigger)
        → All (λ (t : Trigger). In t mg.fills) old
        → ((t : Trigger) → In t mg.fills → In t ts)
        → All (λ (t : Trigger). In t ts) old
    keep_all [] h k = tt
    keep_all (t ∷ old) h k = (k t h.0, keep_all old h.1 k)
