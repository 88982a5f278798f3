-- ===== src/Store/Process/Progress.antt =====
-- What `process` of src/pkg/store/store.go has applied, once operations have arrived.
use doozer.Common.{
  ℕ, zero, suc, ◌^◌, ◌≤◌, ◌<◌, ltb, ℤ, pos, pos_part, ltb_ℤ, leb_ℤ, parts_of_eq, Bool, false, Bytes,
  List, [], ◌∷◌, ◌++◌, All, In, In-cons, In-append, In-append_left, In-append_right, All-In,
  if_cases, if◌then◌else◌, Bool-cases, ◌≡◌, refl, sym, ap, subst, ◌∙◌, ◌⊎◌, inl, inr, arith,
}
use doozer.Store.Error.{Texts}
use doozer.Store.Process.Steps.{above_zero, catch_up-Same}
use doozer.Store.Process.{
  Op, Watch, Store, Input, op, watch, clean, report, sent, flush, push, clean_log, new, zero_event,
  add_watch, drop_stopped, take_input, drain, step, process,
}
use doozer.Store.Process.Queue.{
  position, Legal, IsSorted, Drained, drain-Drained, push-Legal, push-IsSorted, push-In,
  push-In_old,
}

-- What has come in is applied, or it waits in the queue.
pub record Taken (received : List Op) (s : Store) : Type 0 where
  pub last : ℕ
  pub small : suc last < 2 ^ 63
  pub ver_eq : s.ver ≡ pos last
  pub legal : All Legal s.todo
  pub sorted : IsSorted s.todo
  pub accounted : (o : Op) → In o received → (position o ≤ last) ⊎ In o s.todo

-- After a turn, what waits is beyond the next position.
pub record Settled (received : List Op) (s : Store) : Type 0 where
  pub taken : Taken received s
  pub idle : All (λ o. suc taken.last < position o) s.todo

-- The operation of an input.
abbrev pub op_of : Input → List Op
op_of (op o) = o ∷ []
op_of _ = []

-- Positions have an int64 after them, and there is no flush.
abbrev pub LegalInput : Input → Type 0
LegalInput (op o) = suc (position o) < 2 ^ 63
LegalInput flush = ⊥
LegalInput _ = Unit

Taken-same :
    {received : List Op} {s s' : Store}
    → Taken received s
    → s'.ver ≡ s.ver
    → s'.todo ≡ s.todo
    → Taken received s'
Taken-same r v q = record {
  last = r.last;
  small = r.small;
  ver_eq = v ∙ r.ver_eq;
  legal = rw q r.legal;
  sorted = rw q r.sorted;
  accounted = λ o i. rw q (r.accounted o i);
}

at_most : (k : ℕ) (s : ℤ) → ltb_ℤ (pos k) s ≡ false → pos_part s ≤ k
at_most k s e = ground arith

Taken-op :
    {received : List Op} {s : Store} (o : Op)
    → suc (position o) < 2 ^ 63
    → Taken received s
    → Taken (o ∷ received) (if ltb_ℤ s.ver o.seqn then record s { todo = push o s.todo } else s)
Taken-op {received} {s} o b r =
    if_cases (Taken (o ∷ received)) (ltb_ℤ s.ver o.seqn)
      (λ e.
        let h : Legal o =
          (above_zero r.last o.seqn (sym (ap (λ v. ltb_ℤ v o.seqn) r.ver_eq) ∙ e), b) in
        record {
          last = r.last;
          small = r.small;
          ver_eq = r.ver_eq;
          legal = push-Legal o s.todo h r.legal;
          sorted = push-IsSorted o s.todo h r.legal r.sorted;
          accounted = λ p i. elim (In-cons i) [
            | inl e ↦ inr (rw e (push-In o s.todo))
            | inr j ↦ elim (r.accounted p j) [
              | inl le ↦ inl le
              | inr q ↦ inr (push-In_old p o s.todo q)
            ]
          ];
        })
      (λ e. record {
        last = r.last;
        small = r.small;
        ver_eq = r.ver_eq;
        legal = r.legal;
        sorted = r.sorted;
        accounted = λ p i. elim (In-cons i) [
          | inl q ↦ inl (rw q (at_most r.last o.seqn (sym (ap (λ v. ltb_ℤ v o.seqn) r.ver_eq) ∙ e)))
          | inr j ↦ r.accounted p j
        ];
      })

clean_log-same :
    (f : ℕ) (seqn : ℤ) (s : Store)
    → ((clean_log f seqn s).ver ≡ s.ver) × ((clean_log f seqn s).todo ≡ s.todo)
unfolding clean_log
clean_log-same zero seqn s = (refl, refl)
clean_log-same (suc f) seqn s =
    if_cases (λ (x : Store). (x.ver ≡ s.ver) × (x.todo ≡ s.todo)) (leb_ℤ s.head seqn)
      (λ e. clean_log-same f seqn _) (λ e. (refl, refl))

Settled-Drained :
    {received : List Op} {s s' : Store} (r : Taken received s)
    → Drained r.last s.todo s'
    → Settled received s'
Settled-Drained r d = record {
  taken = record {
    last = d.last;
    small = d.small;
    ver_eq = d.ver_eq;
    legal = d.legal;
    sorted = d.sorted;
    accounted = λ o i. elim (r.accounted o i) [
      | inl le ↦ inl (omega (arith, le, d.grew))
      | inr j ↦ d.kept o j
    ];
  };
  idle = d.idle;
}

module _ (t : Texts) (matches : Bytes → Bytes → Bool) (stopped : Watch → Bool) where
  take_input-Taken :
      (i : Input) {received : List Op} {s : Store}
      → LegalInput i
      → Taken received s
      → Taken (op_of i ++ received) (take_input t matches stopped i s)
  unfolding take_input add_watch
  take_input-Taken (op o) h r = Taken-op o h r
  take_input-Taken (watch w) {s} h r =
      let (v, (_, (_, q))) = catch_up-Same t matches stopped _ w.from s _ in Taken-same r v q
  take_input-Taken (clean seqn) {s} h r = let (v, q) = clean_log-same _ seqn s in Taken-same r v q
  take_input-Taken report h r = r
  take_input-Taken sent h r = Taken-same r refl refl
  take_input-Taken flush h r = elim h [ ]

  turn-Settled :
      (i : Input) {received : List Op} {s : Store}
      → LegalInput i
      → Taken received s
      → let s₁ =
          take_input t matches stopped i
            (record s { notices = drop_stopped t matches stopped s.notices }) in
        Settled (op_of i ++ received) (drain t matches stopped false s₁.todo s₁.ver zero_event s₁).0
  turn-Settled i {received} {s} h r =
      let s₁ =
        take_input t matches stopped i
          (record s { notices = drop_stopped t matches stopped s.notices }) in
      let r₁ = take_input-Taken i h (Taken-same r refl refl) in
      Settled-Drained r₁ (
        subst
          (λ v. Drained r₁.last s₁.todo (drain t matches stopped false s₁.todo v zero_event s₁).0)
          (sym r₁.ver_eq)
          (drain-Drained t matches stopped s₁.todo r₁.last zero_event s₁ r₁.ver_eq r₁.small r₁.legal
            r₁.sorted))

  step-Settled :
      (i : Input) {received : List Op} {s : Store}
      → LegalInput i
      → Settled received s
      → Settled (op_of i ++ received) (step t matches stopped s i)
  unfolding step
  step-Settled (op o) h r = turn-Settled (op o) h r.taken
  step-Settled (watch w) h r = turn-Settled (watch w) h r.taken
  step-Settled (clean seqn) h r = turn-Settled (clean seqn) h r.taken
  step-Settled report h r = turn-Settled report h r.taken
  step-Settled sent h r = turn-Settled sent h r.taken
  step-Settled flush h r = elim h [ ]

abbrev pub ops_of : List (Input × (Watch → Bool)) → List Op
ops_of [] = []
ops_of ((i, stopped) ∷ is) = op_of i ++ ops_of is

-- An operation is in a list, or in another that has been received.
process-Settled :
    (t : Texts) (matches : Bytes → Bytes → Bool) (is : List (Input × (Watch → Bool)))
    {received : List Op} {s : Store}
    → All (λ (x : Input × (Watch → Bool)). LegalInput x.0) is
    → Settled received s
    → (all : List Op) × Settled all (process t matches s is)
      × ((o : Op) → In o (ops_of is) ⊎ In o received → In o all)
unfolding process
process-Settled t matches [] {received} h r =
    (received, r, λ o i. elim i [ inl j ↦ elim j [ ] | inr j ↦ j ])
process-Settled t matches ((i, stopped) ∷ is) {received} (h, hs) r =
    let (all, r', inside) =
      process-Settled t matches is hs (step-Settled t matches stopped i h r) in
    (all, r', λ o j. inside o (moved o j))
  where
    moved :
        (o : Op)
        → In o (op_of i ++ ops_of is) ⊎ In o received
        → In o (ops_of is) ⊎ In o (op_of i ++ received)
    moved o (inl j) = elim (In-append (op_of i) j) [
      | inl k ↦ inr (In-append_left received k)
      | inr k ↦ inl k
    ]
    moved o (inr j) = inr (In-append_right (op_of i) j)

new-Settled : Settled [] new
new-Settled = record {
  taken = record {
    last = 0;
    small = omega arith;
    ver_eq = refl;
    legal = tt;
    sorted = tt;
    accounted = λ o i. elim i [ ];
  };
  idle = tt;
}

-- Whatever the order in which operations have come in, with repetitions, among watches and requests
-- to clean but without a flush: if every position from 1 to `n` has come in, a new store has
-- applied all of them. It needs positions that have an int64 after them.
pub process-reaches :
    (t : Texts) (matches : Bytes → Bytes → Bool) (is : List (Input × (Watch → Bool))) (n : ℕ)
    → All (λ (x : Input × (Watch → Bool)). LegalInput x.0) is
    → ((p : ℕ) → 0 < p → p ≤ n → (o : Op) × In o (ops_of is) × (o.seqn ≡ pos p))
    → (last : ℕ) × ((process t matches new is).ver ≡ pos last) × (n ≤ last)
process-reaches t matches is n h arrived =
    let (all, r, inside) = process-Settled t matches is h new-Settled in
    (
      r.taken.last,
      r.taken.ver_eq,
      elim (Bool-cases (ltb r.taken.last n)) [
        | inr e ↦ ground arith
        | inl e ↦
            let (o, i, q) = arrived (suc r.taken.last) (omega arith) (ground arith) in
            absurd (waiting r o (inside o (inl i)) q)
      ],
    )
  where
    waiting :
        {all : List Op} {s : Store} (r : Settled all s) (o : Op)
        → In o all
        → o.seqn ≡ pos (suc r.taken.last)
        → ⊥
    waiting r o i q = elim (r.taken.accounted o i) [
      | inl le ↦ omega (arith, le, parts_of_eq q)
      | inr j ↦ omega (arith, All-In _ r.idle j, parts_of_eq q)
    ]
