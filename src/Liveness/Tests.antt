-- ===== src/Liveness/Tests.antt =====
-- The check of liveness at a concrete input.
use doozer.Common.{
  pos, ◌+₆₄◌, ◌-₆₄◌, ◌<ℤ◌, ◌≤ℤ◌, ◌⊎◌, ◌≡◌, wrap64, ◌+ℤ◌, ◌-ℤ◌, codes, bytes_eq, [], ◌∷◌, refl,
}
use doozer.Liveness.{Liveness, Checked, check, sift, check-Checked}

-- Three addresses, of which the first is the node's own.
abbrev heard_of : Liveness
heard_of = record {
  timeout = pos 10;
  prev = pos 0;
  ival = pos 5;
  times = (codes "me", pos 1) ∷ (codes "old", pos 2) ∷ (codes "new", pos 18) ∷ [];
  self = codes "me";
}

check-Checked_example :
    ((pos 0 +₆₄ pos 5 <ℤ pos 20)
      × Checked heard_of
          (pos 20 -₆₄ pos 10)
          (pos 20)
          (check heard_of (pos 20)).0
          (check heard_of (pos 20)).1)
    ⊎ ((pos 20 ≤ℤ pos 0 +₆₄ pos 5) × (check heard_of (pos 20) ≡ (heard_of, [])))
check-Checked_example = check-Checked heard_of (pos 20)

-- That check is due: the address that is old is shunned, and the node's own is not.
sifted : (check heard_of (pos 20)).1 ≡ codes "old" ∷ []
unfolding check sift ◌+₆₄◌ ◌-₆₄◌ wrap64 ◌+ℤ◌ ◌-ℤ◌ bytes_eq
sifted = refl
