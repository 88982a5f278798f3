-- ===== src/Consensus/Safety/Rounds.antt =====
-- Which rounds the CALs use.
use native.Mathlib.Nat.{mul-le-mul_right}
use doozer.Common.{
  ℕ, suc, ℤ, pos, pos_part, ◌+ℤ◌, ◌+₆₄◌, +₆₄-eq-+ℤ, subst, Option, List, [], ◌∷◌, ◌≤◌, ◌<◌, ◌+◌,
  ◌*◌, ◌-◌, ◌^◌, Bytes, true, some, map, In, get_elem?, length, ◌≡◌, refl, sym, ap, ◌∙◌, inl, inr,
  ltb, Bool-cases, ==_iff, ◌==◌, arith,
}
use doozer.Consensus.Message.{M, Packet}
use doozer.Consensus.Coordinator
use doozer.Consensus.Coordinator.{Coordinator, Outcome, ignored, begins, hears, nominates, ticks}
use doozer.Consensus.Run.{template, new_run}
use doozer.Consensus.Run.Index.{Starts, outside, inside, new_run-Starts}
use doozer.Consensus.System.{Cluster, start_run}
use doozer.Consensus.Safety.Global.{IsRound}
use doozer.Consensus.Safety.Reach.{setting}

apart : (s i j d l : ℕ) → j < s → ¬ (i + (l + suc d) * s ≡ j + l * s)
apart s i j d l h e = omega (arith, e, distributed)
  where
    distributed : (l + suc d) * s ≡ l * s + s + d * s
    distributed = omega arith

-- A position below the step is determined by the round.
same_residue : (s i j k l : ℕ) → i < s → j < s → i + k * s ≡ j + l * s → i ≡ j
same_residue s i j k l hi hj e = elim (Bool-cases (ltb k l)) [
  | inl lt ↦
      let d = l - suc k in
      let el : l ≡ k + suc d = ground arith in absurd (apart s j i d k hi (sym (rw el at e)))
  | inr ge ↦ elim (Bool-cases (k == l)) [
    | inl same ↦ let ek : k ≡ l = (==_iff k l).0 same in rest (rw ek at e)
    | inr ne ↦
        let d = k - suc l in
        let ek : k ≡ l + suc d = ground arith in absurd (apart s i j d l hj (rw ek at e))
  ]
]
  where
    rest : i + l * s ≡ j + l * s → i ≡ j
    rest h = omega arith

module _ (cl : Cluster) (few : length cl.cals + length cl.cals < 2 ^ 63) where
  -- A CAL starts at its position plus the number of CALs.
  cal_position :
      (c : Bytes)
      → In (cl.name c) cl.cals
      → (i : ℕ) × (get_elem? cl.cals i ≡ some (cl.name c))
        × (i < length cl.cals)
        × ((setting cl).first c ≡ i + length cl.cals)
        × ((start_run cl c).c.crnd ≡ pos (i + length cl.cals))
  unfolding start_run
  cal_position c member =
      from_Starts (new_run-Starts (template (cl.name c)) cl.event_seqn cl.alpha cl.cals _ few)
    where
      from_Starts :
          Starts
            (template (cl.name c))
            cl.event_seqn
            cl.alpha
            cl.cals
            (map (λ a. (a, true)) cl.nodes)
            few
          → (i : ℕ) × (get_elem? cl.cals i ≡ some (cl.name c))
            × (i < length cl.cals)
            × ((setting cl).first c ≡ i + length cl.cals)
            × ((start_run cl c).c.crnd ≡ pos (i + length cl.cals))
      from_Starts (outside h e) = absurd (h member)
      from_Starts (inside k g lt e) = (k, g, lt, ap pos_part e, e)

  pub same_round-same_name :
      (c d : Bytes) (k l : ℕ) {r : ℤ}
      → In (cl.name c) cl.cals
      → In (cl.name d) cl.cals
      → IsRound (setting cl) c k r
      → IsRound (setting cl) d l r
      → cl.name c ≡ cl.name d
  same_round-same_name c d k l ic id ec ed =
      let (i, gi, li, fi, _) = cal_position c ic in
      let (j, gj, lj, fj, _) = cal_position d id in
      let both : (setting cl).first c + k * length cl.cals
          ≡ (setting cl).first d + l * length cl.cals =
        ap pos_part (sym ec ∙ ed) in
      let e : i ≡ j = same_residue (length cl.cals) i j k l li lj (omega (arith, both, fi, fj)) in
      name_eq (sym gi ∙ (ap (get_elem? cl.cals) e ∙ gj))
    where
      name_eq : {x y : Bytes} → some x ≡ some y → x ≡ y
      name_eq h = cc

-- A coordinator after the packets that it gets.
unfoldable pub updates : Coordinator → List Packet → Coordinator
updates co [] = co
updates co (p ∷ ps) = updates (Coordinator.update co p).0 ps

-- Its round is a number of steps of `size` after `m`, and its size is as it was.
abbrev Steps : ℕ → ℕ → ℕ → Coordinator → Type 0
Steps m size n co = (co.size ≡ size) × ((k : ℕ) × (k ≤ n) × (co.crnd ≡ pos (m + k * size)))

sum_lem : (a b : ℕ) → a + b < 2 ^ 63 → pos a +₆₄ pos b ≡ pos (a + b)
unfolding ◌+ℤ◌
sum_lem a b h = +₆₄-eq-+ℤ (pos a) (pos b) (ground arith) ∙ ground arith

next_lem :
    (m size k n : ℕ)
    → k ≤ n
    → m + suc n * size < 2 ^ 63
    → pos (m + k * size) +₆₄ pos size ≡ pos (m + suc k * size)
next_lem m size k n h b =
    let le : k * size ≤ n * size = mul-le-mul_right size h in
    sum_lem (m + k * size) size (omega (arith, le, b)) ∙ ap pos (omega arith)

update-Steps :
    (m size n : ℕ) (co : Coordinator) (p : Packet)
    → m + suc n * size < 2 ^ 63
    → Steps m size n co
    → Steps m size (suc n) (Coordinator.update co p).0
update-Steps m size n co p b (z, (k, le, e)) = cases _ (Coordinator.update-Outcome co p)
  where
    still : (co' : Coordinator) → co'.size ≡ co.size → co'.crnd ≡ co.crnd → Steps m size (suc n) co'
    still co' f g = (f ∙ z, (k, omega (arith, le), g ∙ e))

    cases : (co' : Coordinator) {out : Option M} → Outcome co p co' out → Steps m size (suc n) co'
    cases co' (ignored f _) = still co' (ap (λ x. x.size) f) (ap (λ x. x.crnd) f)
    cases co' (begins _ _ f _) = still co' (ap (λ x. x.size) f) (ap (λ x. x.crnd) f)
    cases co' (hears _ _ _ _ _ _ f _) = still co' (ap (λ x. x.size) f) (ap (λ x. x.crnd) f)
    cases co' (nominates _ co₁ _ _ _ _ _ h _ f _) =
        still co' (ap (λ x. x.size) f ∙ ap (λ x. x.size) h)
          (ap (λ x. x.crnd) f ∙ ap (λ x. x.crnd) h)
    cases co' (ticks _ f _) = (
      ap (λ x. x.size) f ∙ z,
      (suc k, omega (arith, le), ap (λ x. x.crnd) f ∙ (rw (e, z) (next_lem m size k n le b))),
    )

updates-Steps :
    (m size n : ℕ) (co : Coordinator) (ps : List Packet)
    → m + (length ps + n) * size < 2 ^ 63
    → Steps m size n co
    → Steps m size (length ps + n) (updates co ps)
unfolding updates
updates-Steps m size n co [] b (z, (k, le, e)) = (z, (k, omega (arith, le), e))
updates-Steps m size n co (p ∷ ps) b h =
    let e : length ps + suc n ≡ suc (length ps) + n = omega arith in
    subst (λ j. Steps m size j (updates (Coordinator.update co p).0 ps)) e
      (updates-Steps m size (suc n) (Coordinator.update co p).0 ps (rw e b)
        (update-Steps m size n co p (below (mul-le-mul_right size (omega arith))) h))
  where
    below : suc n * size ≤ (suc (length ps) + n) * size → m + suc n * size < 2 ^ 63
    below le = omega (arith, le, b)

start_run-size : (cl : Cluster) (c : Bytes) → (start_run cl c).c.size ≡ length cl.cals
unfolding start_run new_run
start_run-size cl c = refl

-- Two CALs whose coordinators are in the same round, after any packets that each got, have the same
-- id. There are so few packets and CALs that no round is past the last int64.
pub updates-same_name :
    (cl : Cluster) (c d : Bytes) (ps qs : List Packet)
    → In (cl.name c) cl.cals
    → In (cl.name d) cl.cals
    → (2 + length ps) * length cl.cals < 2 ^ 63
    → (2 + length qs) * length cl.cals < 2 ^ 63
    → (updates (start_run cl c).c ps).crnd ≡ (updates (start_run cl d).c qs).crnd
    → cl.name c ≡ cl.name d
updates-same_name cl c d ps qs ic id bc bd e =
    let (k, lk, ek) = round_of c ps ic bc in
    let (l, ll, el) = round_of d qs id bd in
    same_round-same_name cl (few (length ps) bc) c d k l ic id ek (e ∙ el)
  where
    few : (n : ℕ) → (2 + n) * length cl.cals < 2 ^ 63 → length cl.cals + length cl.cals < 2 ^ 63
    few n b = omega (arith, b)

    round_of :
        (n : Bytes) (ps : List Packet)
        → In (cl.name n) cl.cals
        → (2 + length ps) * length cl.cals < 2 ^ 63
        → (k : ℕ) × (k ≤ length ps + 0)
          × IsRound (setting cl) n k (updates (start_run cl n).c ps).crnd
    round_of n ps i b =
        let (j, gj, lj, fj, e) = cal_position cl (few (length ps) b) n i in
        let first : (start_run cl n).c.crnd ≡ pos ((setting cl).first n + 0 * length cl.cals) =
          e ∙ ap pos (omega (arith, fj)) in
        (updates-Steps ((setting cl).first n) (length cl.cals) 0 (start_run cl n).c ps
          (omega (arith, b, lj, fj)) (start_run-size cl n, (0, omega arith, first))).1
