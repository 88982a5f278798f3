-- ===== src/Common/Family.antt =====
-- Families over byte strings, as total functions.
use mathlib.Core.Path.{sym, ◌∙◌}
use mathlib.Core.Logic.{◌≢◌, inl, inr}
use mathlib.Core.Bool.{false≢true}
use doozer.Common.Tests.{if◌then◌else◌, Bool-cases}
use doozer.Common.Lists.{Bytes}
use doozer.Common.Words.{bytes_eq, bytes_eq_iff}

-- One position of a family changes.
abbrev pub put {ℓ} : {A : Type ℓ} → (Bytes → A) → Bytes → A → Bytes → A
put f n x a = if bytes_eq n a then x else f a

pub put-cases {ℓ κ} :
    {A : Type ℓ} (P : Bytes → A → Type κ) (f : Bytes → A) (n : Bytes) (x : A)
    → P n x
    → ((a : Bytes) → a ≢ n → P a (f a))
    → (a : Bytes) → P a (put f n x a)
put-cases P f n x hx hf a = elim (Bool-cases (bytes_eq n a)) [
  | inl e ↦ rw (e, ← (bytes_eq_iff n a).0 e) hx
  | inr d ↦ rw d (hf a (λ p. false≢true (sym d ∙ (bytes_eq_iff n a).1 (sym p))))
]
