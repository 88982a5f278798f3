-- ===== src/Store/Apply/Effects.antt =====
-- What `apply` of src/pkg/store/node.go does to the tree, and what the event says of it.
use doozer.Common.{
  ℤ, pos, ltb_ℤ, Bool, true, false, Bytes, bytes_eq, List, [], ◌∷◌, Option, none, some, if_cases,
  Bool-cases, Option-cases, ◌≡◌, ◌≢◌, none≢some, refl, sym, ◌∙◌, ◌⊎◌, inl, inr, arith,
}
use doozer.Store.Error.{Error, Texts, error_string}
use doozer.Store.Path.{check_path, split}
use doozer.Store.Mutation.{Decoded, decode}
use doozer.Store.Mutation.Decode.{decode-PathOrError}
use doozer.Store.Node.{Node, node, rev_of, entries_of, missing, dir, get, get_path, set, setp, at}
use doozer.Store.Node.Lookup.{Apart, at_or_zero, at-set_self, at-set_removed, at-set-Apart}
use doozer.Store.Event.{Event, is_set, is_del, is_nop}
use doozer.Store.Apply.{error_path, nop_mutation, check, check_rev, check_dirs, commit, apply}

pub error_path-checked : check_path error_path ≡ none
unfolding check_path
error_path-checked = refl

pub setp-set :
    (k v : Bytes) (rev : ℤ) (keep : Bool) (n : Node)
    → check_path k ≡ none
    → setp k v rev keep n ≡ (set (split k) v rev keep n).0
unfolding setp
setp-set k v rev keep n h = rw (setp, h)

setp-bad :
    (k v : Bytes) (rev : ℤ) (keep : Bool) (n : Node) {e : Error}
    → check_path k ≡ some e
    → setp k v rev keep n ≡ n
unfolding setp
setp-bad k v rev keep n h = rw (setp, h)

-- No change at a path that parts from the path of the change.
pub at-setp-Apart :
    (k v : Bytes) (rev : ℤ) (keep : Bool) (n : Node) (q : List Bytes)
    → Apart (split k) q
    → at q (setp k v rev keep n) ≡ at q n
at-setp-Apart k v rev keep n q a = elim (Option-cases (check_path k)) [
  | inl h ↦ rw (setp-set k v rev keep n h) (at-set-Apart v rev keep n a)
  | inr (e, h) ↦ rw (setp-bad k v rev keep n h)
]

pub setp-kept :
    (k v : Bytes) (rev : ℤ) (n : Node)
    → check_path k ≡ none
    → at (split k) (setp k v rev true n) ≡ some (node v rev (entries_of (at_or_zero (split k) n)))
setp-kept k v rev n h = rw (setp-set k v rev true n h) (at-set_self (split k) v rev n)

-- The root stays a directory unless it is itself replaced.
pub set-root :
    (p : List Bytes) (v : Bytes) (rev : ℤ) (keep : Bool) (n : Node)
    → p ≢ []
    → rev_of (set p v rev keep n).0 ≡ dir
unfolding set
set-root [] v rev keep n h = absurd (h refl)
set-root (a ∷ p) v rev keep n h = refl

-- What the event tells of the tree before and the tree after.
abbrev pub Told : Node → Node → Event → Type 0
Told n n' e =
    ((is_set e ≡ true)
      × (at (split e.path) n'
          ≡ some (node e.body e.rev (entries_of (at_or_zero (split e.path) n)))))
    ⊎ (((is_del e ≡ true) × (at (split e.path) n' ≡ none)) ⊎ ((is_nop e ≡ true) × (n' ≡ n)))

commit-error :
    (t : Texts) (n : Node) (seqn : ℤ) (mut : Bytes) (d : Decoded) (e : Error)
    → ltb_ℤ (pos 0) seqn ≡ true
    → let r = commit t n seqn mut d (some e) in Told n r.0 r.1
unfolding is_set
commit-error t n seqn mut d e h =
    inl (h, setp-kept error_path (error_string t e) seqn n error_path-checked)

-- The path of a change that passes the checks is a path, and not the root.
pub check-rev :
    (n : Node) (d : Decoded) → d.err ≡ none → check_dirs n d ≡ none → check n d ≡ check_rev n d
check-rev n d e k = rw (check, e, k)

check-err : (n : Node) (d : Decoded) {x : Error} → d.err ≡ some x → check n d ≡ some x
check-err n d e = rw (check, e)

check-dirs :
    (n : Node) (d : Decoded) {x : Error}
    → d.err ≡ none
    → check_dirs n d ≡ some x
    → check n d ≡ some x
check-dirs n d e k = rw (check, e, k)

-- The checks in their order: no error means that each passed.
pub check-none :
    (n : Node) (d : Decoded) → check n d ≡ none → (d.err ≡ none) × (check_rev n d ≡ none)
check-none n d h = elim (Option-cases d.err) [
  | inr (x, e) ↦ absurd (none≢some (sym h ∙ check-err n d e))
  | inl e ↦ elim (Option-cases (check_dirs n d)) [
    | inr (x, k) ↦ absurd (none≢some (sym h ∙ check-dirs n d e k))
    | inl k ↦ (e, sym (check-rev n d e k) ∙ h)
  ]
]

check_rev-dir : (n : Node) (d : Decoded) → (get_path d.path n).1 ≡ dir → check_rev n d ≢ none
check_rev-dir n d e h = absurd (ground (arith, e, h))

pub checked-path :
    (n : Node) (m : Bytes) → check n (decode m) ≡ none → check_path (decode m).path ≡ none
checked-path n m h = elim (decode-PathOrError m) [
  | inl e ↦ e
  | inr (x, e) ↦ absurd (none≢some (sym (check-none n (decode m) h).0 ∙ e))
]

get-root : (n : Node) → (get [] n).1 ≡ rev_of n
unfolding get at
get-root n = ground arith

get_path-root :
    (k : Bytes) (n : Node) → check_path k ≡ none → split k ≡ [] → (get_path k n).1 ≡ rev_of n
unfolding get_path
get_path-root k n h e = rw (get_path, h, e) (get-root n)

pub checked-below :
    (n : Node) (m : Bytes) → rev_of n ≡ dir → check n (decode m) ≡ none → split (decode m).path ≢ []
checked-below n m r h e =
    let c = checked-path n m h in
    check_rev-dir n (decode m) (get_path-root (decode m).path n c e ∙ r)
      (check-none n (decode m) h).1

commit-set :
    (t : Texts) (n : Node) (seqn : ℤ) (mut : Bytes) (d : Decoded)
    → ltb_ℤ (pos 0) seqn ≡ true
    → check_path d.path ≡ none
    → d.keep ≡ true
    → let r = commit t n seqn mut d none in Told n r.0 r.1
unfolding is_set
commit-set t n seqn mut d h c k = rw k (inl (h, setp-kept d.path d.v seqn n c))

setp-removed :
    (k v : Bytes) (rev : ℤ) (n : Node)
    → check_path k ≡ none
    → split k ≢ []
    → at (split k) (setp k v rev false n) ≡ none
setp-removed k v rev n c below = rw (setp-set k v rev false n c) (removed (split k) below)
  where
    removed : (p : List Bytes) → p ≢ [] → at p (set p v rev false n).0 ≡ none
    removed [] h = absurd (h refl)
    removed (a ∷ p) h = at-set_removed a p v rev n

commit-del :
    (t : Texts) (n : Node) (seqn : ℤ) (mut : Bytes) (d : Decoded)
    → check_path d.path ≡ none
    → split d.path ≢ []
    → d.keep ≡ false
    → let r = commit t n seqn mut d none in Told n r.0 r.1
unfolding is_del
commit-del t n seqn mut d c below k =
    rw k (inr (inl (refl, setp-removed d.path d.v missing n c below)))

-- The event of a mutation is true of the trees: a set is found at its path with the event's body and
-- revision, after a deletion nothing is found there, and nothing else happens but a nop. It needs a
-- positive position, and a root that is a directory, as it is from the start.
pub apply-Told :
    (t : Texts) (n : Node) (seqn : ℤ) (mut : Bytes)
    → ltb_ℤ (pos 0) seqn ≡ true
    → rev_of n ≡ dir
    → Told n (apply t n seqn mut).0 (apply t n seqn mut).1
unfolding apply is_nop
apply-Told t n seqn mut h r =
    if_cases (λ (res : Node × Event). Told n res.0 res.1) (bytes_eq mut nop_mutation)
      (λ e. inr (inr (refl, refl))) (λ e. committed (check n (decode mut)) refl)
  where
    committed :
        (o : Option Error)
        → check n (decode mut) ≡ o
        → let res = commit t n seqn mut (decode mut) o in Told n res.0 res.1
    committed (some x) e = commit-error t n seqn mut (decode mut) x h
    committed none e = elim (Bool-cases (decode mut).keep) [
      | inl k ↦ commit-set t n seqn mut (decode mut) h (checked-path n mut e) k
      | inr k ↦
          commit-del t n seqn mut (decode mut) (checked-path n mut e) (checked-below n mut r e) k
    ]
