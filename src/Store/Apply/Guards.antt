-- ===== src/Store/Apply/Guards.antt =====
-- What `apply` of src/pkg/store/node.go lets through, and what it leaves alone.
use doozer.Common.{
  ℤ, leb_ℤ, eqb_ℤ_iff, true, false, Bytes, bytes_eq, List, [], Option, none, some, if_cases,
  if◌then◌else◌, ◌≡◌, ◌≢◌, refl, sym, ap, ◌∙◌, ◌⊎◌, arith,
}
use doozer.Store.Error.{Error, Texts, error_string}
use doozer.Store.Path.{split}
use doozer.Store.Mutation.{Decoded, decode}
use doozer.Store.Node.{Node, rev_of, missing, clobber, dir, get_path, at}
use doozer.Store.Node.Lookup.{Apart}
use doozer.Store.Event.{Event}
use doozer.Store.Apply.{error_path, nop_mutation, check, check_rev, commit, apply}
use doozer.Store.Apply.Effects.{
  error_path-checked, setp-set, at-setp-Apart, set-root, check-none, checked-path, checked-below,
}

commit-Apart :
    (t : Texts) (n : Node) (seqn : ℤ) (mut : Bytes) (d : Decoded) (o : Option Error)
    (q : List Bytes)
    → Apart (split (commit t n seqn mut d o).1.path) q
    → at q (commit t n seqn mut d o).0 ≡ at q n
commit-Apart t n seqn mut d (some e) q a =
    at-setp-Apart error_path (error_string t e) seqn true n q a
commit-Apart t n seqn mut d none q a =
    at-setp-Apart d.path d.v (if d.keep then seqn else missing) d.keep n q a

-- One mutation changes nothing at a path that parts from the path of its event, on every branch.
pub apply-Apart :
    (t : Texts) (n : Node) (seqn : ℤ) (mut : Bytes) (q : List Bytes)
    → Apart (split (apply t n seqn mut).1.path) q
    → at q (apply t n seqn mut).0 ≡ at q n
unfolding apply
apply-Apart t n seqn mut q =
    if_cases (λ (r : Node × Event). Apart (split r.1.path) q → at q r.0 ≡ at q n)
      (bytes_eq mut nop_mutation) (λ e a. refl)
      (λ e. commit-Apart t n seqn mut (decode mut) (check n (decode mut)) q)

-- A read of the revision at the path of a change.
abbrev pub current_rev : Node → Bytes → ℤ
current_rev n k = (get_path k n).1

check_rev-guard :
    (n : Node) (d : Decoded)
    → check_rev n d ≡ none
    → ((d.rev ≡ clobber) ⊎ (leb_ℤ (current_rev n d.path) d.rev ≡ true))
      × (current_rev n d.path ≢ dir)
check_rev-guard n d h = ground (arith, eqb_ℤ_iff d.rev clobber)

pub apply-commit :
    (t : Texts) (n : Node) (seqn : ℤ) (mut : Bytes)
    → bytes_eq mut nop_mutation ≡ false
    → apply t n seqn mut ≡ commit t n seqn mut (decode mut) (check n (decode mut))
unfolding apply
apply-commit t n seqn mut h = rw (apply, h)

commit-err :
    (t : Texts) (n : Node) (seqn : ℤ) (mut : Bytes) (d : Decoded) (o : Option Error)
    → (commit t n seqn mut d o).1.err ≡ o
commit-err t n seqn mut d (some e) = refl
commit-err t n seqn mut d none = refl

-- A mutation other than a nop whose event carries no error had a clobber revision or one that is no
-- older than the node's, and no directory stood at its path.
pub apply-guarded :
    (t : Texts) (n : Node) (seqn : ℤ) (mut : Bytes)
    → bytes_eq mut nop_mutation ≡ false
    → (apply t n seqn mut).1.err ≡ none
    → let d = decode mut in
      ((d.rev ≡ clobber) ⊎ (leb_ℤ (current_rev n d.path) d.rev ≡ true))
      × (current_rev n d.path ≢ dir)
unfolding apply
apply-guarded t n seqn mut h e =
    let passed = check-none n (decode mut) (
      sym (commit-err t n seqn mut (decode mut) (check n (decode mut)))
      ∙ (ap (λ r. r.1.err) (sym (apply-commit t n seqn mut h)) ∙ e)) in
    check_rev-guard n (decode mut) passed.1

error_path-below : split error_path ≢ []
unfolding split
error_path-below e = cc

-- The root of the tree stays a directory.
pub apply-root :
    (t : Texts) (n : Node) (seqn : ℤ) (mut : Bytes)
    → rev_of n ≡ dir
    → rev_of (apply t n seqn mut).0 ≡ dir
unfolding apply
apply-root t n seqn mut h =
    if_cases (λ (r : Node × Event). rev_of r.0 ≡ dir) (bytes_eq mut nop_mutation) (λ e. h)
      (λ e. committed (check n (decode mut)) refl)
  where
    committed :
        (o : Option Error)
        → check n (decode mut) ≡ o
        → rev_of (commit t n seqn mut (decode mut) o).0 ≡ dir
    committed (some x) e =
        ap rev_of (setp-set error_path (error_string t x) seqn true n error_path-checked)
        ∙ set-root (split error_path) (error_string t x) seqn true n error_path-below
    committed none e =
        let d = decode mut in
        let rev = if d.keep then seqn else missing in
        ap rev_of (setp-set d.path d.v rev d.keep n (checked-path n mut e))
        ∙ set-root (split d.path) d.v rev d.keep n (checked-below n mut h e)
