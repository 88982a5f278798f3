-- ===== src/Store/Apply/Pruned.antt =====
-- A deletion below a regular file, in `apply` and `set` of src/pkg/store/node.go.
use doozer.Common.{
  ℤ, leb_ℤ, true, false, Bytes, bytes_eq, List, [], ◌∷◌, none, some, if◌then◌else◌, ◌≡◌, refl, ap,
  ◌∙◌, arith,
}
use doozer.Store.Error.{Texts}
use doozer.Store.Path.{check_path, split}
use doozer.Store.Mutation.{Decoded, decode}
use doozer.Store.Node.{
  Node, node, nil, entries_of, missing, find, get, get_path, set, setp, at, child,
}
use doozer.Store.Node.Lookup.{at_option, find-put_entry_self}
use doozer.Store.Apply.{nop_mutation, check, check_rev, commit, apply}
use doozer.Store.Apply.Effects.{setp-set}
use doozer.Store.Apply.Guards.{apply-commit}

child-file : (a : Bytes) (n m : Node) → find a (entries_of n) ≡ some m → child a n ≡ m
child-file a n m h = rw (child, h)

at-set_under_file :
    (a c v w : Bytes) (rev s : ℤ) (n : Node)
    → find a (entries_of n) ≡ some (node w s nil)
    → at (a ∷ []) (set (a ∷ c ∷ []) v rev false n).0 ≡ none
unfolding at set
at-set_under_file a c v w rev s n h = ap (at_option []) (
    find-put_entry_self a (set (c ∷ []) v rev false (child a n)) (entries_of n)
    ∙ dropped (child-file a n (node w s nil) h))
  where
    dropped :
        child a n ≡ node w s nil
        → (if (set (c ∷ []) v rev false (child a n)).1
            then some (set (c ∷ []) v rev false (child a n)).0
            else none)
          ≡ none
    dropped e = rw e refl

get-under_file :
    (a c w : Bytes) (s : ℤ) (n : Node)
    → find a (entries_of n) ≡ some (node w s nil)
    → (get (a ∷ c ∷ []) n).1 ≡ missing
unfolding get at find
get-under_file a c w s n h = rw (get, at, h)

get_path-split : (k : Bytes) (n : Node) → check_path k ≡ none → get_path k n ≡ get (split k) n
unfolding get_path
get_path-split k n h = rw (get_path, h)

abbrev pub deletes : Bytes → ℤ → Decoded
deletes k rev = record { path = k; v = []; rev = rev; keep = false; err = none }

check_rev-missing :
    (n : Node) (d : Decoded)
    → (get_path d.path n).1 ≡ missing
    → leb_ℤ missing d.rev ≡ true
    → check_rev n d ≡ none
check_rev-missing n d e h = ground (arith, e, h)

-- A deletion at a path of two components succeeds if the first is a regular file: the event names the
-- path, which was not there, and it is the file that is removed. The mutation has a revision that
-- is not negative.
pub apply-del_under_file :
    (t : Texts) (n : Node) (seqn : ℤ) (mut k a c w : Bytes) (rev s : ℤ)
    → bytes_eq mut nop_mutation ≡ false
    → decode mut ≡ deletes k rev
    → check_path k ≡ none
    → split k ≡ a ∷ c ∷ []
    → find a (entries_of n) ≡ some (node w s nil)
    → leb_ℤ missing rev ≡ true
    → ((apply t n seqn mut).1.err ≡ none)
      × (((apply t n seqn mut).1.path ≡ k) × (at (a ∷ []) (apply t n seqn mut).0 ≡ none))
apply-del_under_file t n seqn mut k a c w rev s other d p e h r = rw whole (refl, (refl, gone))
  where
    passed : check n (deletes k rev) ≡ none
    passed =
        check_rev-missing n (deletes k rev)
          (ap (λ (r : List Bytes × ℤ). r.1) (get_path-split k n p)
            ∙ (ap (λ q. (get q n).1) e ∙ get-under_file a c w s n h))
          r

    whole : apply t n seqn mut ≡ commit t n seqn mut (deletes k rev) none
    whole =
        apply-commit t n seqn mut other
        ∙ (ap (λ x. commit t n seqn mut x (check n x)) d
            ∙ ap (commit t n seqn mut (deletes k rev)) passed)

    gone : at (a ∷ []) (setp k [] missing false n) ≡ none
    gone =
        ap (at (a ∷ []))
          (setp-set k [] missing false n p ∙ ap (λ q. (set q [] missing false n).0) e)
        ∙ at-set_under_file a c [] w missing s n h
