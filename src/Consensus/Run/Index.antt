-- ===== src/Consensus/Run/Index.antt =====
-- Where a node stands among the CALs, and the round that it starts with.
use doozer.Common.{
  ℕ, suc, ℤ, pos, negsuc, ◌+ℤ◌, ◌+₆₄◌, +₆₄-eq-+ℤ, ◌<◌, ◌+◌, ◌^◌, Bool, false, false≢true, Bytes,
  bytes_eq, bytes_eq_iff, some, List, [], ◌∷◌, In, In-cons, get_elem?, length, if_cases, ◌≡◌, refl,
  sym, ap, ◌∙◌, inl, inr, arith,
}
use doozer.Consensus.Run.{Run, index_from, index_of, new_run}

-- Either the id is absent and the result is -1, or it stands at position `k`.
pub data Stands (i : ℕ) (cals : List Bytes) (x : Bytes) (r : ℤ) : Type 0 where
  absent : ¬ In x cals → r ≡ negsuc 0 → Stands i cals x r
  found :
      (k : ℕ) → get_elem? cals k ≡ some x → k < length cals → r ≡ pos (i + k) → Stands i cals x r

pos_step : (i : ℕ) → pos i +ℤ pos 1 ≡ pos (i + 1)
unfolding ◌+ℤ◌
pos_step i = ground arith

index_from-Stands :
    (i : ℕ) (cals : List Bytes) (x : Bytes) → Stands i cals x (index_from (pos i) cals x)
unfolding index_from
index_from-Stands i [] x = absent (λ j. elim j [ ]) refl
index_from-Stands i (id ∷ cals) x =
    if_cases (Stands i (id ∷ cals) x) (bytes_eq id x)
      (λ e. found 0 (ap some ((bytes_eq_iff id x).0 e)) (omega arith) (ap pos (omega arith)))
      (λ n. rw (pos_step i) (skip n (index_from-Stands (i + 1) cals x)))
  where
    skip : bytes_eq id x ≡ false → {r : ℤ} → Stands (i + 1) cals x r → Stands i (id ∷ cals) x r
    skip n (absent h e) =
        absent
          (λ j. elim (In-cons j) [
            | inl p ↦ false≢true (sym n ∙ (bytes_eq_iff id x).1 (sym p))
            | inr j' ↦ h j'
          ])
          e
    skip n (found k h lt e) = found (suc k) h (omega arith) (e ∙ ap pos (omega arith))

pub index_of-Stands : (r : Run) (x : Bytes) → Stands 0 r.cals x (index_of r x)
unfolding index_of
index_of-Stands r x = index_from-Stands 0 r.cals x

module _ (t : Run) (event_seqn alpha : ℤ) (cals : List Bytes) (addrs : List (Bytes × Bool))
    (few : length cals + length cals < 2 ^ 63) where
  abbrev fresh : Run
  fresh = new_run t event_seqn alpha cals addrs

  -- The first round of a CAL is its position plus the number of CALs; any other node starts one
  -- below the first CAL.
  pub data Starts : Type 0 where
    outside : ¬ In t.self cals → fresh.c.crnd +ℤ pos 1 ≡ pos (length cals) → Starts
    inside :
        (k : ℕ)
        → get_elem? cals k ≡ some t.self
        → k < length cals
        → fresh.c.crnd ≡ pos (k + length cals)
        → Starts

  sum_lem : (a b : ℕ) → a + b < 2 ^ 63 → pos a +₆₄ pos b ≡ pos (a + b)
  unfolding ◌+ℤ◌
  sum_lem a b h = +₆₄-eq-+ℤ (pos a) (pos b) (ground arith) ∙ ground arith

  below_lem : (b : ℕ) → b < 2 ^ 63 → (negsuc 0 +₆₄ pos b) +ℤ pos 1 ≡ pos b
  unfolding ◌+ℤ◌
  below_lem b h = rw (+₆₄-eq-+ℤ (negsuc 0) (pos b) (ground arith)) (ground arith)

  from_Stands : {i : ℤ} → Stands 0 cals t.self i → fresh.c.crnd ≡ i +₆₄ pos (length cals) → Starts
  from_Stands (absent h e) c = outside h (rw (c, e) (below_lem (length cals) (omega arith)))
  from_Stands (found k g lt e) c =
      inside k g lt (rw (c, e) (sum_lem (0 + k) (length cals) (omega arith) ∙ ap pos (omega arith)))

  pub new_run-Starts : Starts
  unfolding new_run
  new_run-Starts =
      from_Stands
        (index_of-Stands (record t { seqn = event_seqn +₆₄ alpha; cals = cals; addrs = addrs })
          t.self)
        refl
