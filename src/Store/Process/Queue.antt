-- ===== src/Store/Process/Queue.antt =====
-- The queue of `process` of src/pkg/store/store.go, and what the inner loop leaves in it.
use doozer.Common.Heap
use doozer.Common.{
  ℕ, suc, ◌^◌, ◌≤◌, ◌<◌, pos, pos_part, ◌<ℤ◌, ltb_ℤ, ◌+₆₄◌, wrap64, ◌+ℤ◌, parts_of_eq, Bool, false,
  Bytes, List, [], ◌∷◌, All, In, In-cons, if_cases, ◌≡◌, sym, subst, ◌∙◌, ◌⊎◌, inl, inr, arith,
}
use doozer.Store.Error.{Texts}
use doozer.Store.Event.{Event}
use doozer.Store.Process.Steps.{next_lem, applied, advance, advanced-ver, apply-seqn, drain-cons}
use doozer.Store.Process.{Op, Watch, Store, later, drop, turn, push, drain}

abbrev pub position : Op → ℕ
position o = pos_part o.seqn

-- An operation of the queue has a position that is positive and has an int64 after it.
abbrev pub Legal : Op → Type 0
Legal o = (pos 0 <ℤ o.seqn) × (suc (position o) < 2 ^ 63)

abbrev pub IsSorted : List Op → Type 0
IsSorted [] = Unit
IsSorted (o ∷ os) = All (λ p. position o ≤ position p) os × IsSorted os

-- The queue after a turn, when `os` has been in it: what remains is beyond the next position.
pub record Drained (k : ℕ) (os : List Op) (s : Store) : Type 0 where
  pub last : ℕ
  pub small : suc last < 2 ^ 63
  pub ver_eq : s.ver ≡ pos last
  pub grew : k ≤ last
  pub legal : All Legal s.todo
  pub sorted : IsSorted s.todo
  pub idle : All (λ o. suc last < position o) s.todo
  pub kept : (o : Op) → In o os → (position o ≤ last) ⊎ In o s.todo

pub All-weaken {ℓ κ λ'} :
    {A : Type ℓ} {P : A → Type κ} {Q : A → Type λ'} (f : (a : A) → P a → Q a) (xs : List A)
    → All P xs
    → All Q xs
All-weaken f [] h = tt
All-weaken f (x ∷ xs) (h, hs) = (f x h, All-weaken f xs hs)

later_lem :
    (k : ℕ) (o : Op)
    → suc k < 2 ^ 63
    → Legal o
    → turn o.seqn (pos k +₆₄ pos 1) ≡ later
    → suc k < position o
unfolding ◌+₆₄◌ wrap64 ◌+ℤ◌
later_lem k o b h e = ground (arith, e)

drop_lem :
    (k : ℕ) (o : Op)
    → suc k < 2 ^ 63
    → Legal o
    → turn o.seqn (pos k +₆₄ pos 1) ≡ drop
    → position o ≤ k
unfolding ◌+₆₄◌ wrap64 ◌+ℤ◌
drop_lem k o b h e = ground (arith, e)

-- One more operation in front, which is no further than where the turn ends.
Drained-cons :
    {k j : ℕ} {o : Op} {os : List Op} {s : Store} (d : Drained j os s)
    → k ≤ j
    → position o ≤ j
    → Drained k (o ∷ os) s
Drained-cons {k} {j} {o} {os} {s} d h p = record {
  last = d.last;
  small = d.small;
  ver_eq = d.ver_eq;
  grew = omega (arith, d.grew);
  legal = d.legal;
  sorted = d.sorted;
  idle = d.idle;
  kept =
      λ q i. elim (In-cons i) [ inl e ↦ inl (rw e (omega (arith, d.grew))) | inr r ↦ d.kept q r ];
}

module _ (t : Texts) (matches : Bytes → Bytes → Bool) (stopped : Watch → Bool) where
  pub drain-Drained :
      (os : List Op) (k : ℕ) (ev : Event) (s : Store)
      → s.ver ≡ pos k
      → suc k < 2 ^ 63
      → All Legal os
      → IsSorted os
      → Drained k os (drain t matches stopped false os (pos k) ev s).0
  drain-Drained [] k ev s v b h q =
      unfold drain in
      record {
        last = k;
        small = b;
        ver_eq = v;
        grew = omega arith;
        legal = tt;
        sorted = tt;
        idle = tt;
        kept = λ o i. elim i [ ];
      }
  drain-Drained (o ∷ os) k ev s v b (h, hs) (q, qs) =
      drain-cons t matches stopped (λ x. Drained k (o ∷ os) x.0) o os (pos k) ev s
        (λ e. record {
          last = k;
          small = b;
          ver_eq = v;
          grew = omega arith;
          legal = (h, hs);
          sorted = (q, qs);
          idle =
              let beyond = later_lem k o b h e in
              (beyond, All-weaken (λ p c. omega (arith, beyond, c)) os q);
          kept = λ p i. inr i;
        })
        (λ e. Drained-cons (drain-Drained os k ev s v b hs qs) (omega arith) (drop_lem k o b h e))
        (λ e.
          let s' = advance t matches stopped o s in
          let ev' = (applied t o s).1 in
          let (next, _) = next_lem k o.seqn (omega arith) h.0 e in
          let at_next : ev'.seqn ≡ pos (suc k) = apply-seqn t s.root o.seqn o.mut ∙ next in
          let bound : suc (suc k) < 2 ^ 63 = omega (arith, parts_of_eq next, h.1) in
          subst (λ v. Drained k (o ∷ os) (drain t matches stopped false os v ev' s').0)
            (sym at_next)
            (Drained-cons
              (drain-Drained os (suc k) ev' s' (advanced-ver t matches stopped o s ∙ at_next) bound
                hs qs)
              (omega arith) (omega (arith, parts_of_eq next))))

pub push-Legal : (o : Op) (os : List Op) → Legal o → All Legal os → All Legal (push o os)
unfolding push
push-Legal o os h hs = Heap.All-push (λ (p : Op). p.seqn) Legal o os h hs

push-ge :
    (n : ℕ) (o : Op) (os : List Op)
    → n ≤ position o
    → All (λ p. n ≤ position p) os
    → All (λ p. n ≤ position p) (push o os)
unfolding push
push-ge n o os h hs = Heap.All-push (λ (p : Op). p.seqn) (λ p. n ≤ position p) o os h hs

not_less : (p o : Op) → Legal p → Legal o → ltb_ℤ p.seqn o.seqn ≡ false → position o ≤ position p
not_less p o h k e = ground arith

pub push-IsSorted :
    (o : Op) (os : List Op) → Legal o → All Legal os → IsSorted os → IsSorted (push o os)
unfolding push Heap.push
push-IsSorted o [] h hs q = (tt, tt)
push-IsSorted o (p ∷ os) h (k, ks) (q, qs) =
    if_cases IsSorted (ltb_ℤ p.seqn o.seqn)
      (λ e. (push-ge (position p) o os (ground arith) q, push-IsSorted o os h ks qs))
      (λ e.
        let le = not_less p o k h e in
        ((le, All-weaken (λ r c. omega (arith, le, c)) os q), (q, qs)))

pub push-In : (o : Op) (os : List Op) → In o (push o os)
unfolding push
push-In o os = Heap.push-In (λ (p : Op). p.seqn) o os

pub push-In_old : (q o : Op) (os : List Op) → In q os → In q (push o os)
unfolding push
push-In_old q o os i = Heap.push-In_old (λ (p : Op). p.seqn) q o os i
