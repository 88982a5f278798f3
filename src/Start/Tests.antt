-- ===== src/Start/Tests.antt =====
-- A proposal, and an event that is followed, at concrete inputs.
use doozer.Common.{
  ℤ, pos, eqb_ℤ, if◌then◌else◌, inl, inr, Option, arith, false≢true, Bytes, bytes_eq, bytes_eq_iff,
  codes, [], ◌∷◌, map, none, some, ◌≡◌, refl,
}
use doozer.Store.Error.{Texts}
use doozer.Store.Path.{check_path, split}
use doozer.Store.Node.{node, empty_dir, entries_of, at, find, get, get_path}
use doozer.Store.Node.Lookup.{at_or_zero}
use doozer.Store.Event.{Event}
use doozer.Store.Apply.{apply, blocked}
use doozer.Store.Process.{zero_event, new}
use doozer.Client.Calls
use doozer.Start.{Position, finished, propose, follow_op}
use doozer.Start.Follow.{propose-finds, follow_op-file}

abbrev event_with : Bytes → Event
event_with mut = record zero_event { mut = mut }

-- The events that the store comes to apply: position 3 goes to another mutation.
abbrev log_of : ℤ → Option Event
log_of n = if eqb_ℤ n (pos 3) then some (event_with (codes "y")) else some (event_with (codes "x"))

-- A position that is after the store's, and one that the store has by the time of `Wait`.
abbrev third : Position
third = record { seqn = pos 3; store = record new { ver = pos 2 } }

abbrev fourth : Position
fourth = record { seqn = pos 4; store = record new { ver = pos 4; log = log_of } }

propose-finds_example : propose log_of (codes "x") (third ∷ fourth ∷ third ∷ []) ≡ record {
  props = record { seqn = pos 3; mut = codes "x" } ∷ record { seqn = pos 4; mut = codes "x" } ∷ [];
  ending = finished (event_with (codes "x"));
}
unfolding bytes_eq map
propose-finds_example =
    propose-finds log_of (codes "x") (third ∷ []) fourth (third ∷ []) (event_with (codes "x"))
      (λ e. false≢true ((bytes_eq_iff [] (codes "x")).1 e))
      (
        (
          (omega arith, omega arith, inl (omega arith)),
          (
            event_with (codes "y"),
            refl,
            λ e. false≢true ((bytes_eq_iff (codes "y") (codes "x")).1 e),
          ),
        ),
        tt,
      )
      (omega arith, omega arith, inr refl) refl refl

abbrev texts : Texts
texts = record {
  enotdir_text = codes "not a directory";
  eisdir_text = codes "is a directory";
  num_error_text = λ s. s;
}

-- The deletion of /a, as the client sees it: the flags of a reply that is valid, and of a deletion.
abbrev deleted : Calls.Event
deleted = record { rev = pos 4; path = codes "/a"; body = []; flag = 9; err = none }

follow_op-file_example :
    (mut : Bytes) × (follow_op deleted ≡ some (record { seqn = pos 4; mut = mut }))
    × (at (split (codes "/a")) (apply texts empty_dir (pos 4) mut).0
        ≡ some (node [] (pos 4) (entries_of (at_or_zero (split (codes "/a")) empty_dir))))
unfolding blocked check_path split get_path get at find
follow_op-file_example = follow_op-file texts empty_dir deleted refl refl
