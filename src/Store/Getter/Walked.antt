-- ===== src/Store/Getter/Walked.antt =====
-- What a walk of src/pkg/store/getter.go visits.
use doozer.Common.{
  ℕ, zero, suc, ℤ, eqb_ℤ, Bool, true, false, Bytes, codes, bytes_eq, List, [], ◌∷◌, ◌++◌, if_cases,
  if◌then◌else◌, ◌≡◌, refl,
}
use doozer.Store.Node.{Node, missing, dir, get_path}
use doozer.Store.Getter.{first, sort_strings, each, walk_from, walk}

below : Bytes → Bytes → Bytes
below path e = (if bytes_eq path (codes "/") then [] else path) ++ (codes "/" ++ e)

-- A file of the tree that matches.
pub record IsFile (g : Node) (matches : Bytes → Bool) (path body : Bytes) (rev : ℤ) : Type 0 where
  pub matching : matches path ≡ true
  pub found : (get_path path g).1 ≡ rev
  pub content : first (get_path path g).0 ≡ body
  pub exists : eqb_ℤ rev missing ≡ false
  pub file : eqb_ℤ rev dir ≡ false

module _ {ℓ κ} {S : Type ℓ} (g : Node) (matches : Bytes → Bool)
    (visit : Bytes → Bytes → ℤ → S → S × Bool) (I : S → Type κ)
    (step : (path body : Bytes) (rev : ℤ) (s : S)
      → IsFile g matches path body rev
      → I s
      → I (visit path body rev s).0) where
  each-keeps :
      (onward : Bytes → S → S × Bool)
      → ((e : Bytes) (s : S) → I s → I (onward e s).0)
      → (es : List Bytes) (s : S) → I s
      → I (each g matches visit onward es s).0
  each-keeps onward k [] s h = h
  each-keeps onward k (e ∷ es) s h =
      if_cases (λ (r : S × Bool). I r.0) (onward e s).1 (λ _. k e s h)
        (λ _. each-keeps onward k es (onward e s).0 (k e s h))

  walk_from-keeps : (f : ℕ) (path : Bytes) (s : S) → I s → I (walk_from g matches visit f path s).0
  unfolding walk_from below
  walk_from-keeps zero path s h = h
  walk_from-keeps (suc f) path s h =
      if_cases (λ (r : S × Bool). I r.0) (eqb_ℤ (get_path path g).1 missing) (λ _. h)
        (λ n.
          if_cases (λ (r : S × Bool). I r.0) (eqb_ℤ (get_path path g).1 dir)
            (λ _.
              each-keeps (λ e. walk_from g matches visit f (below path e))
                (λ e s k. walk_from-keeps f (below path e) s k) (sort_strings (get_path path g).0) s
                h)
            (λ d.
              if_cases (λ (r : S × Bool). I r.0) (matches path)
                (λ m.
                  step path _ _ s
                    (record { matching = m; found = refl; content = refl; exists = n; file = d }) h)
                (λ _. h)))

  -- What every visit of a file that matches keeps, the walk keeps.
  pub walk-keeps : (f : ℕ) (s : S) → I s → I (walk g matches visit f s).0
  unfolding walk
  walk-keeps f s h = walk_from-keeps f (codes "/") s h
