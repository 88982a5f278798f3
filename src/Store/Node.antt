-- ===== src/Store/Node.antt =====
-- src/pkg/store/node.go: the tree, its lookups and its replacement along one path.
pub mod Lookup
use doozer.Common.{
  ℕ, suc, ℤ, pos, negsuc, eqb_ℤ, Bool, true, false, ◌&&◌, not, ltb, Bytes, bytes_eq, List, [], ◌∷◌,
  Option, none, some, if◌then◌else◌, length, ◌-◌, ◌%◌, ◌^◌,
}
use doozer.Store.Error.{Error}
use doozer.Store.Path.{check_path, split}

-- Special values for a revision.
abbrev pub missing : ℤ
missing = pos 0

abbrev pub clobber : ℤ
clobber = negsuc 0

abbrev pub dir : ℤ
dir = negsuc 1

abbrev pub nop : ℤ
nop = negsuc 2

-- The map of a node is an association list; a nil map and an empty one are both `nil`.
mutual
  pub data Node : Type 0 where
    node : Bytes → ℤ → Entries → Node

  pub data Entries : Type 0 where
    nil : Entries
    entry : Bytes → Node → Entries → Entries

abbrev pub value_of : Node → Bytes
value_of (node v rev ds) = v

abbrev pub rev_of : Node → ℤ
rev_of (node v rev ds) = rev

abbrev pub entries_of : Node → Entries
entries_of (node v rev ds) = ds

-- The zero value of the struct.
abbrev pub zero_node : Node
zero_node = node [] (pos 0) nil

abbrev pub empty_dir : Node
empty_dir = node [] dir nil

unfoldable pub find : Bytes → Entries → Option Node
find k nil = none
find k (entry j n ds) = if bytes_eq j k then some n else find k ds

-- `ds[k] = n`
unfoldable pub insert : Bytes → Node → Entries → Entries
insert k n nil = entry k n nil
insert k n (entry j m ds) = if bytes_eq j k then entry k n ds else entry j m (insert k n ds)

-- `ds[k] = n, false`
unfoldable pub erase : Bytes → Entries → Entries
erase k nil = nil
erase k (entry j m ds) = let rest = erase k ds in if bytes_eq j k then rest else entry j m rest

abbrev pub count : Entries → ℕ
count nil = 0
count (entry k n ds) = suc (count ds)

-- The names, in the order of the list; Go leaves the order of a map open.
unfoldable pub names : Entries → List Bytes
names nil = []
names (entry k n ds) = k ∷ names ds

unfoldable pub readdir : Node → List Bytes
unfolding names
readdir n = names (entries_of n)

-- `none` is ENOENT.
unfoldable pub at : List Bytes → Node → Option Node
unfolding find
at [] n = some n
at (p ∷ ps) n = elim (find p (entries_of n)) [ none ↦ none | some m ↦ at ps m ]

-- The names of a directory that has entries, or the one value of any other node.
abbrev pub listing : Option Node → List Bytes × ℤ
listing none = ([] ∷ [], missing)
listing (some n) =
    if ltb 0 (count (entries_of n))
    then (names (entries_of n), rev_of n)
    else (value_of n ∷ [], rev_of n)

unfoldable pub get : List Bytes → Node → List Bytes × ℤ
unfolding at
get parts n = listing (at parts n)

unfoldable pub get_path : Bytes → Node → List Bytes × ℤ
unfolding get check_path split
get_path path n = elim (check_path path) [ none ↦ get (split path) n | some e ↦ ([] ∷ [], missing) ]

-- The conversion of a length to int32, which keeps the low 32 bits.
abbrev pub int32 : ℕ → ℤ
int32 n = let u = n % 2 ^ 32 in if ltb u (2 ^ 31) then pos u else negsuc (2 ^ 32 - 1 - u)

abbrev pub measure : Option Node → ℤ × ℤ
measure none = (pos 0, missing)
measure (some n) =
    if ltb 0 (count (entries_of n))
    then (int32 (count (entries_of n)), rev_of n)
    else (int32 (length (value_of n)), rev_of n)

unfoldable pub stat : List Bytes → Node → ℤ × ℤ
unfolding at
stat parts n = measure (at parts n)

unfoldable pub stat_path : Bytes → Node → ℤ × ℤ
unfolding stat check_path split
stat_path path n = elim (check_path path) [ none ↦ stat (split path) n | some e ↦ (pos 0, missing) ]

-- A read of the map gives the zero value for a missing key.
abbrev pub child : Bytes → Node → Node
child p n = elim (find p (entries_of n)) [ none ↦ zero_node | some m ↦ m ]

-- `n.Ds[k] = m, ok`
abbrev pub put_entry : Bytes → Node × Bool → Entries → Entries
put_entry k (m, ok) ds = if ok then insert k m ds else erase k ds

-- The replacement of a node, and whether its parent keeps it.
unfoldable pub set : List Bytes → Bytes → ℤ → Bool → Node → Node × Bool
unfolding find insert erase
set [] v rev keep n = (node v rev (entries_of n), keep)
set (p ∷ ps) v rev keep n =
    let ds = put_entry p (set ps v rev keep (child p n)) (entries_of n) in
    (node (value_of n) dir ds, ltb 0 (count ds))

unfoldable pub setp : Bytes → Bytes → ℤ → Bool → Node → Node
unfolding set check_path split
setp k v rev keep n = elim (check_path k) [ none ↦ (set (split k) v rev keep n).0 | some e ↦ n ]
