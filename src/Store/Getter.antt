-- ===== src/Store/Getter.antt =====
-- src/pkg/store/getter.go: reads of a tree, and the walk over its files.
pub mod Walked
use doozer.Common.{
  ℕ, zero, suc, ltb, ◌==◌, ℤ, eqb_ℤ, Bool, true, false, ◌||◌, ◌&&◌, Bytes, codes, bytes_eq, List,
  [], ◌∷◌, ◌++◌, if◌then◌else◌,
}
use doozer.Store.Node.{Node, missing, dir, get_path}

-- `v[0]`; a node that is neither missing nor a directory has one value.
abbrev pub first : List Bytes → Bytes
first [] = []
first (v ∷ vs) = v

unfoldable pub get_string : Node → Bytes → Bytes
unfolding get_path
get_string g path =
    let (v, rev) = get_path path g in if eqb_ℤ rev missing || eqb_ℤ rev dir then [] else first v

unfoldable pub get_dir : Node → Bytes → List Bytes
unfolding get_path
get_dir g path = let (v, rev) = get_path path g in if eqb_ℤ rev dir then v else []

-- The order of strings, and `sort.SortStrings`.
unfoldable pub bytes_leb : Bytes → Bytes → Bool
bytes_leb [] t = true
bytes_leb (a ∷ s) [] = false
bytes_leb (a ∷ s) (b ∷ t) = ltb a b || a == b && bytes_leb s t

unfoldable pub insert_sorted : Bytes → List Bytes → List Bytes
insert_sorted x [] = x ∷ []
insert_sorted x (y ∷ ys) =
    let rest = insert_sorted x ys in if bytes_leb x y then x ∷ y ∷ ys else y ∷ rest

unfoldable pub sort_strings : List Bytes → List Bytes
unfolding insert_sorted
sort_strings [] = []
sort_strings (x ∷ xs) = insert_sorted x (sort_strings xs)

-- A visitor changes a state, and says whether to stop. `matches` is the glob.
module _ {ℓ} {S : Type ℓ} (g : Node) (matches : Bytes → Bool)
    (visit : Bytes → Bytes → ℤ → S → S × Bool) where
  abbrev visit_file : Bytes → List Bytes × ℤ → S → S × Bool
  visit_file path (v, rev) s = if matches path then visit path (first v) rev s else (s, false)

  -- The loop over the entries of a directory, until one of them stops.
  abbrev each : (Bytes → S → S × Bool) → List Bytes → S → S × Bool
  each onward [] s = (s, false)
  each onward (e ∷ es) s =
      let r = onward e s in let rest = each onward es r.0 in if r.1 then r else rest

  -- The walk from a path. The fuel is the depth to which it goes.
  unfoldable pub walk_from : ℕ → Bytes → S → S × Bool
  unfolding sort_strings
  walk_from zero path s = (s, false)
  walk_from (suc f) path s =
      let (v, rev) = get_path path g in
      let under = if bytes_eq path (codes "/") then [] else path in
      let below = each (λ e. walk_from f (under ++ (codes "/" ++ e))) (sort_strings v) s in
      if eqb_ℤ rev missing
      then (s, false)
      else if eqb_ℤ rev dir
      then below
      else visit_file path (v, rev) s

  unfoldable pub walk : ℕ → S → S × Bool
  unfolding walk_from
  walk f s = walk_from f (codes "/") s
