-- ===== src/Store/Tests.antt =====
-- The store package at concrete inputs.
use doozer.Common.Heap
use doozer.Common.{
  ℕ, ℤ, Bool, false, List, ◌+₆₄◌, wrap64, ◌+ℤ◌, pos, negsuc, leb_ℤ, true, false, Bytes, bytes_eq,
  codes, [], ◌∷◌, none, some, ◌≡◌, ◌≢◌, refl, ◌⊎◌, arith,
}
use doozer.Store.Error.{Texts}
use doozer.Store.Path.{check_path, split}
use doozer.Store.Number.{itoa64, atoi64}
use doozer.Store.Number.RoundTrip.{atoi64-itoa64}
use doozer.Store.Mutation.{encode_set, encode_del, decode}
use doozer.Store.Mutation.RoundTrip.{decode-encode_set, decode-encode_del}
use doozer.Store.Node.{
  Node, node, nil, find, entries_of, rev_of, clobber, dir, at, set, setp, get, get_path, empty_dir,
}
use doozer.Store.Node.Lookup.{at_once, at_or_zero, at-set_self, at-set_removed}
use doozer.Store.Apply.{apply, blocked}
use doozer.Store.Apply.Effects.{Told, apply-Told}
use doozer.Store.Apply.Guards.{current_rev, apply-Apart, apply-guarded, apply-root}
use doozer.Store.Process.{
  Input, op, Watch, new, process, step, take_input, push, drain, drop_stopped, logged, notify,
}
use doozer.Store.Process.Replay.{Replayed}
use doozer.Store.Process.Consistent.{process-Replayed, same_ver-same_root}
use doozer.Store.Apply.Pruned.{apply-del_under_file}
use doozer.Store.Process.{Op}
use doozer.Store.Process.Progress.{ops_of, process-reaches}
use doozer.Store.Glob.{Glob, is_glob, compile_glob, match_glob}
use doozer.Store.Glob.Meaning.{tokens, Denotes}
use doozer.Store.Glob.Correct.{compile_glob-Denotes}
use doozer.Common.{zero, suc, ◌≤◌, ◌<◌, In, here, there, ◌↔◌}
use doozer.Store.Process.{Store, zero_event, add_watch}
use doozer.Store.Process.Watches.{tell_all, matching, events_from, add_watch-told}
use doozer.Store.Process.Notices.{IsDue, notify-IsDue}

abbrev texts : Texts
texts = record {
  enotdir_text = codes "not a directory";
  eisdir_text = codes "is a directory";
  num_error_text = λ s. s;
}

abbrev set_a : Bytes
set_a = codes "-1:/a=x"

abbrev del_a_b : Bytes
del_a_b = codes "0:/a/b"

-- A tree with the one file /a.
abbrev one_file : Node
one_file = (apply texts empty_dir (pos 1) set_a).0

one_file_lem : at (codes "a" ∷ []) one_file ≡ some (node (codes "x") (pos 1) nil)
unfolding apply blocked decode check_path split get_path get at setp set find bytes_eq
one_file_lem = refl

apply-Told_example :
    Told empty_dir (apply texts empty_dir (pos 1) set_a).0 (apply texts empty_dir (pos 1) set_a).1
apply-Told_example = apply-Told texts empty_dir (pos 1) set_a refl refl

apply-Apart_example :
    at (codes "b" ∷ []) (apply texts one_file (pos 2) set_a).0 ≡ at (codes "b" ∷ []) one_file
unfolding apply blocked decode check_path split get_path get at setp set find bytes_eq
apply-Apart_example = apply-Apart texts one_file (pos 2) set_a (codes "b" ∷ []) (at_once refl)

apply-guarded_example :
    let d = decode set_a in
    ((d.rev ≡ clobber) ⊎ (leb_ℤ (current_rev one_file d.path) d.rev ≡ true))
    × (current_rev one_file d.path ≢ dir)
unfolding apply blocked decode check_path split get_path get at setp set find bytes_eq
apply-guarded_example = apply-guarded texts one_file (pos 2) set_a refl refl

apply-root_example : rev_of (apply texts empty_dir (pos 1) set_a).0 ≡ dir
apply-root_example = apply-root texts empty_dir (pos 1) set_a refl

decode-encode_set_example :
    decode (encode_set (codes "/a/b") (codes "k=v:w") (negsuc 0)).mutation
    ≡ record { path = codes "/a/b"; v = codes "k=v:w"; rev = negsuc 0; keep = true; err = none }
unfolding check_path
decode-encode_set_example =
    decode-encode_set (codes "/a/b") (codes "k=v:w") (negsuc 0) refl (omega arith, omega arith)

decode-encode_del_example :
    decode (encode_del (codes "/a/b") (pos 7)).mutation
    ≡ record { path = codes "/a/b"; v = []; rev = pos 7; keep = false; err = none }
unfolding check_path
decode-encode_del_example = decode-encode_del (codes "/a/b") (pos 7) refl (omega arith, omega arith)

atoi64-itoa64_example : atoi64 (itoa64 (negsuc 122)) ≡ (negsuc 122, false)
atoi64-itoa64_example = atoi64-itoa64 (negsuc 122) (omega arith, omega arith)

at-set_self_example :
    at
      (codes "a" ∷ codes "b" ∷ [])
      (set (codes "a" ∷ codes "b" ∷ []) (codes "y") (pos 3) true one_file).0
    ≡ some
        (node (codes "y") (pos 3) (entries_of (at_or_zero (codes "a" ∷ codes "b" ∷ []) one_file)))
at-set_self_example = at-set_self (codes "a" ∷ codes "b" ∷ []) (codes "y") (pos 3) one_file

at-set_removed_example :
    at (codes "a" ∷ []) (set (codes "a" ∷ []) [] (pos 0) false one_file).0 ≡ none
at-set_removed_example = at-set_removed (codes "a") [] [] (pos 0) one_file

apply-del_under_file_example :
    ((apply texts one_file (pos 2) del_a_b).1.err ≡ none)
    × (((apply texts one_file (pos 2) del_a_b).1.path ≡ codes "/a/b")
        × (at (codes "a" ∷ []) (apply texts one_file (pos 2) del_a_b).0 ≡ none))
unfolding apply blocked decode check_path split get_path get at setp set find bytes_eq
apply-del_under_file_example =
    apply-del_under_file texts one_file (pos 2) del_a_b (codes "/a/b") (codes "a") (codes "b")
      (codes "x") (pos 0) (pos 1) refl refl refl refl refl refl

-- A log in which every position sets /a, and its first two positions, in both orders.
abbrev log_a : ℤ → Bytes
log_a p = set_a

abbrev op_at : ℕ → Input × (Watch → Bool)
op_at k = (op (record { seqn = pos k; mut = set_a }), λ w. false)

abbrev forwards : List (Input × (Watch → Bool))
forwards = op_at 1 ∷ op_at 2 ∷ []

abbrev backwards : List (Input × (Watch → Bool))
backwards = op_at 2 ∷ op_at 2 ∷ op_at 1 ∷ []

abbrev no_match : Bytes → Bytes → Bool
no_match glob path = false

process-Replayed_example : Replayed texts log_a (process texts no_match new backwards)
process-Replayed_example =
    process-Replayed texts log_a no_match backwards (refl, (refl, (refl, tt)))

same_ver-same_root_example :
    (process texts no_match new forwards).root ≡ (process texts no_match new backwards).root
unfolding process step take_input push Heap.push drain drop_stopped logged notify apply blocked
    decode check_path split get_path get at setp set find bytes_eq ◌+₆₄◌ wrap64 ◌+ℤ◌
same_ver-same_root_example =
    same_ver-same_root texts log_a no_match no_match forwards backwards (refl, (refl, tt))
      (refl, (refl, (refl, tt))) refl

-- Every position to 2 has arrived, in the order 2, 2, 1.
arrived : (p : ℕ) → 0 < p → p ≤ 2 → (o : Op) × In o (ops_of backwards) × (o.seqn ≡ pos p)
arrived zero a b = absurd (omega (arith, a))
arrived (suc zero) a b = (record { seqn = pos 1; mut = set_a }, there (there here), refl)
arrived (suc (suc zero)) a b = (record { seqn = pos 2; mut = set_a }, here, refl)
arrived (suc (suc (suc p))) a b = absurd (omega (arith, b))

process-reaches_example :
    (last : ℕ) × ((process texts no_match new backwards).ver ≡ pos last) × (2 ≤ last)
process-reaches_example =
    process-reaches texts no_match backwards 2 (omega arith, (omega arith, (omega arith, tt)))
      arrived

compile_glob-Denotes_example :
    ((is_glob (codes "/a/*") ≡ false) × (compile_glob (codes "/a/*") ≡ none))
    ⊎ ((g : Glob) × (compile_glob (codes "/a/*") ≡ some g)
        × ((match_glob g (codes "/a/b") ≡ true) ↔ Denotes (tokens (codes "/a/*")) (codes "/a/b")))
compile_glob-Denotes_example = compile_glob-Denotes (codes "/a/*") (codes "/a/b")

-- A store at position 2 with its log, and a watch from position 1.
abbrev two_logged : Store
two_logged = record new {
  ver = pos 2;
  log = λ p. some (record zero_event { seqn = p; path = codes "/a" });
}

abbrev from_one : Watch
from_one = record { id = 7; glob = codes "/*"; from = pos 1; to = pos 100 }

add_watch-told_example :
    add_watch texts (λ glob path. true) (λ w. false) from_one two_logged ≡ record two_logged {
      watches = from_one ∷ [];
      notices = tell_all from_one (matching (λ path. true) (events_from two_logged.log 2 1));
    }
add_watch-told_example =
    add_watch-told texts (λ glob path. true) (λ w. false) from_one two_logged 1 2 100 refl refl refl
      (omega arith) (omega arith) refl (omega arith) (omega arith)
      (λ p l u. (record zero_event { seqn = pos p; path = codes "/a" }, refl, refl))

notify-IsDue_example :
    In
      (from_one, zero_event)
      (notify texts (λ glob path. true) (λ w. false) zero_event (from_one ∷ [])).1
    ↔ (In from_one (from_one ∷ [])
        × IsDue texts (λ glob path. true) (λ w. false) zero_event from_one)
notify-IsDue_example =
    notify-IsDue texts (λ glob path. true) (λ w. false) zero_event (from_one ∷ []) from_one
