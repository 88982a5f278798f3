-- ===== src/Liveness.antt =====
-- src/pkg/liveness.go: which addresses have been silent for too long.
mod Tests
use doozer.Common.{
  ℤ, ◌+₆₄◌, ◌-₆₄◌, ◌≤ℤ◌, ◌<ℤ◌, ltb_ℤ, Bool, true, false, ◌&&◌, not, Bytes, bytes_eq, bytes_eq_iff,
  List, [], ◌∷◌, In, In-cons, here, there, if◌then◌else◌, if_cases, Bool-cases, ◌≡◌, ◌≢◌, ◌↔◌, refl,
  sym, ap, subst, ◌∙◌, ◌⊎◌, inl, inr, false≢true, arith,
}

-- The channel of shunned addresses is in the result of `check`.
pub record Liveness : Type 0 where
  pub timeout : ℤ
  pub prev : ℤ
  pub ival : ℤ
  pub times : List (Bytes × ℤ)
  pub self : Bytes

-- Whether an address is dropped, last heard of at `s`, when `n` is the oldest time that is kept.
abbrev pub stale : Bytes → ℤ → Bytes × ℤ → Bool
stale self n (addr, s) = ltb_ℤ s n && not (bytes_eq addr self)

-- The loop over the map: what stays, and what is shunned.
unfoldable pub sift : Bytes → ℤ → List (Bytes × ℤ) → List (Bytes × ℤ) × List Bytes
sift self n [] = ([], [])
sift self n (e ∷ es) =
    let (stay, shunned) = sift self n es in
    if stale self n e then (stay, e.0 ∷ shunned) else (e ∷ stay, shunned)

unfoldable pub check : Liveness → ℤ → Liveness × List Bytes
unfolding sift
check lv t =
    let r = sift lv.self (t -₆₄ lv.timeout) lv.times in
    if ltb_ℤ (lv.prev +₆₄ lv.ival) t then (record lv { times = r.0; prev = t }, r.1) else (lv, [])

-- What a check at the time `t` does, when it is due. An address stays in the map, with its time, just when
-- it was there and its time is not before `n`, or it is the node's own.
pub record Checked (lv : Liveness) (n t : ℤ) (lv' : Liveness) (shunned : List Bytes) : Type 0 where
  pub kept :
      (addr : Bytes) (s : ℤ)
      → In (addr, s) lv'.times ↔ (In (addr, s) lv.times × ((n ≤ℤ s) ⊎ (addr ≡ lv.self)))
  pub told :
      (addr : Bytes)
      → In addr shunned ↔ ((s : ℤ) × In (addr, s) lv.times × ((s <ℤ n) × (addr ≢ lv.self)))
  pub prev : lv'.prev ≡ t

IsStale : Bytes → ℤ → Bytes → ℤ → Type 0
IsStale self n addr s = (s <ℤ n) × (addr ≢ self)

IsFresh : Bytes → ℤ → Bytes → ℤ → Type 0
IsFresh self n addr s = (n ≤ℤ s) ⊎ (addr ≡ self)

stale-IsStale :
    (self : Bytes) (n : ℤ) (addr : Bytes) (s : ℤ)
    → stale self n (addr, s) ≡ true
    → IsStale self n addr s
unfolding IsStale
stale-IsStale self n addr s e = (ground arith, λ f. ground (arith, (bytes_eq_iff addr self).1 f))

stale-IsFresh :
    (self : Bytes) (n : ℤ) (addr : Bytes) (s : ℤ)
    → stale self n (addr, s) ≡ false
    → IsFresh self n addr s
unfolding IsFresh
stale-IsFresh self n addr s e = elim (Bool-cases (bytes_eq addr self)) [
  | inl k ↦ inr ((bytes_eq_iff addr self).0 k)
  | inr k ↦ inl (ground (arith, k))
]

not_both :
    (self : Bytes) (n : ℤ) (addr : Bytes) (s : ℤ) → IsStale self n addr s → ¬ IsFresh self n addr s
unfolding IsStale IsFresh
not_both self n addr s (l, ne) (inl g) = absurd (omega (arith, l, g))
not_both self n addr s (l, ne) (inr e) = ne e

-- The loop keeps what is fresh, and shuns what is stale.
record Sifted (self : Bytes) (n : ℤ) (es : List (Bytes × ℤ)) (r : List (Bytes × ℤ) × List Bytes)
    : Type 0 where
  pub kept : (addr : Bytes) (s : ℤ) → In (addr, s) r.0 ↔ (In (addr, s) es × IsFresh self n addr s)
  pub told : (addr : Bytes) → In addr r.1 ↔ ((s : ℤ) × In (addr, s) es × IsStale self n addr s)

sift-Sifted : (self : Bytes) (n : ℤ) (es : List (Bytes × ℤ)) → Sifted self n es (sift self n es)
unfolding sift
sift-Sifted self n [] = record {
  kept = λ addr s. (λ i. absurd (elim i [ ]), λ i. absurd (elim i.0 [ ]));
  told = λ addr. (λ i. absurd (elim i [ ]), λ i. absurd (elim i.1 [ ]));
}
sift-Sifted self n ((a, u) ∷ es) =
    let h = sift-Sifted self n es in
    if_cases (Sifted self n ((a, u) ∷ es)) (stale self n (a, u))
      (λ e. shuns h (stale-IsStale self n a u e)) (λ e. keeps h (stale-IsFresh self n a u e))
  where
    shuns :
        {r : List (Bytes × ℤ) × List Bytes}
        → Sifted self n es r
        → IsStale self n a u
        → Sifted self n ((a, u) ∷ es) (r.0, a ∷ r.1)
    shuns {r} h st = record {
      kept = λ addr s. (
        λ i. (there ((h.kept addr s).0 i).0, ((h.kept addr s).0 i).1),
        λ i. elim (In-cons i.0) [
          | inl e ↦
              absurd
                (not_both self n a u st (subst (λ (k : Bytes × ℤ). IsFresh self n k.0 k.1) e i.1))
          | inr j ↦ (h.kept addr s).1 (j, i.1)
        ],
      );
      told = λ addr. (
        λ i. elim (In-cons i) [
          | inl e ↦ (
            u,
            subst (λ x. In (x, u) ((a, u) ∷ es)) (sym e) here,
            subst (λ x. IsStale self n x u) (sym e) st,
          )
          | inr j ↦ let q = (h.told addr).0 j in (q.0, there q.1, q.2)
        ],
        λ i. elim (In-cons i.1) [
          | inl e ↦ subst (λ x. In x (a ∷ r.1)) (sym (ap (λ (k : Bytes × ℤ). k.0) e)) here
          | inr j ↦ there ((h.told addr).1 (i.0, j, i.2))
        ],
      );
    }

    keeps :
        {r : List (Bytes × ℤ) × List Bytes}
        → Sifted self n es r
        → IsFresh self n a u
        → Sifted self n ((a, u) ∷ es) ((a, u) ∷ r.0, r.1)
    keeps {r} h fr = record {
      kept = λ addr s. (
        λ i. elim (In-cons i) [
          | inl e ↦ (
            subst (λ x. In x ((a, u) ∷ es)) (sym e) here,
            subst (λ (k : Bytes × ℤ). IsFresh self n k.0 k.1) (sym e) fr,
          )
          | inr j ↦ let q = (h.kept addr s).0 j in (there q.0, q.1)
        ],
        λ i. elim (In-cons i.0) [
          | inl e ↦ subst (λ x. In x ((a, u) ∷ r.0)) (sym e) here
          | inr j ↦ there ((h.kept addr s).1 (j, i.1))
        ],
      );
      told = λ addr. (
        λ i. let q = (h.told addr).0 i in (q.0, there q.1, q.2),
        λ i. elim (In-cons i.1) [
          | inl e ↦
              absurd
                (not_both self n a u (subst (λ (k : Bytes × ℤ). IsStale self n k.0 k.1) e i.2) fr)
          | inr j ↦ (h.told addr).1 (i.0, j, i.2)
        ],
      );
    }

-- A check at the time `t` is due when more than `ival` has gone by since the last. Then an address is kept,
-- with its time, just when it was there and its time is not before `t` less the timeout, or it is the node's own;
-- an address is shunned just when it was there with a time before that, and it is not the node's own. A
-- check that is not due changes nothing and shuns none.
pub check-Checked :
    (lv : Liveness) (t : ℤ)
    → ((lv.prev +₆₄ lv.ival <ℤ t) × Checked lv (t -₆₄ lv.timeout) t (check lv t).0 (check lv t).1)
      ⊎ ((t ≤ℤ lv.prev +₆₄ lv.ival) × (check lv t ≡ (lv, [])))
unfolding check sift IsStale IsFresh
check-Checked lv t =
    if_cases
      (λ (r : Liveness × List Bytes).
        ((lv.prev +₆₄ lv.ival <ℤ t) × Checked lv (t -₆₄ lv.timeout) t r.0 r.1)
        ⊎ ((t ≤ℤ lv.prev +₆₄ lv.ival) × (r ≡ (lv, []))))
      (ltb_ℤ (lv.prev +₆₄ lv.ival) t)
      (λ e. inl (ground (arith, e), from_sifted (sift-Sifted lv.self (t -₆₄ lv.timeout) lv.times)))
      (λ e. inr (ground (arith, e), refl))
  where
    from_sifted :
        {r : List (Bytes × ℤ) × List Bytes}
        → Sifted lv.self (t -₆₄ lv.timeout) lv.times r
        → Checked lv (t -₆₄ lv.timeout) t (record lv { times = r.0; prev = t }) r.1
    from_sifted h = record { kept = h.kept; told = h.told; prev = refl }
