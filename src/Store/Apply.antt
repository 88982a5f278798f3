-- ===== src/Store/Apply.antt =====
-- `apply` of src/pkg/store/node.go: what one mutation does to the tree.
pub mod Effects
pub mod Guards
pub mod Pruned
pub mod Encoded
use doozer.Common.{
  ℤ, pos, ltb_ℤ, eqb_ℤ, Bool, true, false, ◌&&◌, not, Bytes, bytes_eq, codes, List, [], ◌∷◌, ◌++◌,
  Option, none, some, if◌then◌else◌, ◌≡◌, refl, arith,
}
use doozer.Store.Error.{Error, Texts, error_string, rev_mismatch, enotdir, eisdir}
use doozer.Store.Path.{split}
use doozer.Store.Mutation.{Decoded, decode}
use doozer.Store.Node.{Node, missing, clobber, dir, nop, get, get_path, setp}
use doozer.Store.Event.{Event}

abbrev pub error_path : Bytes
error_path = codes "/ctl/err"

abbrev pub nop_mutation : Bytes
nop_mutation = codes "nop:"

-- The loop over the proper prefixes of the path: whether it meets a node that is no directory.
unfoldable pub blocked : Node → List Bytes → List Bytes → Bool
blocked n before [] = false
blocked n before (c ∷ []) = false
blocked n before (c ∷ rest) =
    let dir_rev = (get (before ++ c ∷ []) n).1 in
    let onward = blocked n (before ++ c ∷ []) rest in
    if eqb_ℤ dir_rev missing then false else if not (eqb_ℤ dir_rev dir) then true else onward

-- The check of the directories above a file that is to be set.
abbrev pub check_dirs : Node → Decoded → Option Error
check_dirs n d = if d.keep && blocked n [] (split d.path) then some enotdir else none

-- The check of the revision and of the kind of the node at the path.
abbrev pub check_rev : Node → Decoded → Option Error
check_rev n d =
    let cur_rev = (get_path d.path n).1 in
    if not (eqb_ℤ d.rev clobber) && ltb_ℤ d.rev cur_rev
    then some rev_mismatch
    else if eqb_ℤ cur_rev dir
    then some eisdir
    else none

-- The first error, in the order of the code.
abbrev pub check : Node → Decoded → Option Error
check n d = elim d.err [
  | some e ↦ some e
  | none ↦ elim (check_dirs n d) [ some e ↦ some e | none ↦ check_rev n d ]
]

-- The change is made at the path, or the error is written to `ErrorPath`.
abbrev pub commit : Texts → Node → ℤ → Bytes → Decoded → Option Error → Node × Event
commit t n seqn mut d (some e) =
    let rep = setp error_path (error_string t e) seqn true n in
    (
      rep,
      record {
        seqn = seqn;
        path = error_path;
        body = error_string t e;
        rev = seqn;
        mut = mut;
        err = some e;
        getter = rep;
      },
    )
commit t n seqn mut d none =
    let rev = if d.keep then seqn else missing in
    let rep = setp d.path d.v rev d.keep n in
    (
      rep,
      record {
        seqn = seqn;
        path = d.path;
        body = d.v;
        rev = rev;
        mut = mut;
        err = none;
        getter = rep;
      },
    )

unfoldable pub apply : Texts → Node → ℤ → Bytes → Node × Event
unfolding blocked
apply t n seqn mut =
    if bytes_eq mut nop_mutation
    then (
      n,
      record {
        seqn = seqn;
        path = codes "/";
        body = [];
        rev = nop;
        mut = mut;
        err = none;
        getter = n;
      },
    )
    else let d = decode mut in commit t n seqn mut d (check n d)
