-- ===== src/Server/Tests.antt =====
-- The server package at concrete inputs.
use doozer.Common.{pos, codes, [], ◌∷◌, none, some, ◌≡◌, refl, arith}
use doozer.Store.Path.{check_path, split}
use doozer.Store.Node.{Node, node, nil, entry, dir, get_path, get, at, find, names}
use doozer.Server.Request.{T, empty, respond, done_flag}
use doozer.Server.Getdir.{getdir, entry_reply, completes, closes}
use doozer.Server.Shared.{Memory, Access, write_tag, write_flags}
use doozer.Server.Request.{error_code, missing_arg}
use doozer.Server.Getdir.Pages.{getdir-page, getdir-past, getdir-wraps}
use doozer.Common.{List, Option, length, ◌≤◌, bytes_eq, ◌+₃₂◌, wrap32, ◌+ℤ◌, ◌⊎◌, ◌/◌, ◌%◌}
use doozer.Store.Event.{Event, is_set, is_del}
use doozer.Store.Getter.{walk, walk_from, sort_strings, insert_sorted, bytes_leb}
use doozer.Store.Glob.{Glob, match_glob}
use doozer.Store.Glob.Regexp.{Item, compile, match}
use doozer.Server.Watch.{walk_replies, walk_reply, walk_visit, watch_reply}
use doozer.Server.Watch.Limits.{walk_replies-limit}
use doozer.Server.Watch.Told.{event_of-watch_reply}
use doozer.Client.Calls
use doozer.Client.Calls.{event_of}
use doozer.Common.{In, lookup, int_key, true, false, parts_of_eq}
use doozer.Server.Request.{Verb}
use doozer.Server.Transactions
use doozer.Server.Transactions.{Serving, Txn, serve}
use doozer.Server.Transactions.Closing.{respond-closes, serve-cancel_own}
use doozer.Common.{false}
use doozer.Store.Error.{Texts}
use doozer.Store.Process.{new, zero_event}
use doozer.Server.Handlers
use doozer.Server.Handlers.{Conn}
use doozer.Server.Handlers.Answers.{IsAnswer, IsAnswerOrWaits, handlers-IsAnswer}

abbrev two_files : Node
two_files =
    node [] dir
      (entry (codes "a") (node [] (pos 1) nil) (entry (codes "b") (node [] (pos 2) nil) nil))

-- A request for the entries of the root, from the second, at most five.
abbrev second_page : T
second_page = record {
  tag = some (pos 7);
  path = some (codes "/");
  value = [];
  rev = none;
  offset = some (pos 1);
  limit = some (pos 5);
}

-- The same from the fourth.
abbrev fourth_page : T
fourth_page = record second_page { offset = some (pos 3) }

getdir-page_example :
    (getdir two_files second_page none
      ≡ some (
        entry_reply second_page (codes "b") ∷ respond second_page done_flag empty ∷ [],
        completes,
      ))
    × (getdir two_files second_page (some 0) ≡ some ([], closes (pos 7)))
unfolding get_path check_path split get at find names
getdir-page_example =
    getdir-page two_files second_page (codes "a" ∷ codes "b" ∷ []) 1 5 0 refl refl refl
      (omega arith) (omega arith) (omega arith)

getdir-past_example : getdir two_files fourth_page none ≡ none
unfolding get_path check_path split get at find names
getdir-past_example =
    getdir-past two_files fourth_page (codes "a" ∷ codes "b" ∷ []) 3 none refl refl (omega arith)

-- A request from the second entry on, for as many as an int32 counts.
abbrev whole_page : T
whole_page = record second_page { limit = some (pos 2_147_483_647) }

getdir-wraps_example : getdir two_files whole_page none ≡ none
unfolding get_path check_path split get at find names
getdir-wraps_example =
    getdir-wraps two_files whole_page (codes "a" ∷ codes "b" ∷ []) 1 2_147_483_647 none refl refl
      refl (omega arith) (omega arith) (omega arith)

-- Two calls answer with the same response, which misses an argument: one, under tag 7, has written to it when the
-- other, under tag 8, does so, and then marshals it.
abbrev shared_error : Memory
shared_error = record { cells = λ a. respond second_page 0 (error_code missing_arg); sent = [] }

abbrev other_call : T
other_call = record second_page { tag = some (pos 8) }

abbrev first_call : List Access
first_call = write_tag 0 (some (pos 7)) ∷ write_flags 0 3 ∷ []

-- A walk of every file below the root, at most one of them.
abbrev one_walked : T
one_walked = record second_page { path = some (codes "/**"); offset = none; limit = some (pos 1) }

abbrev regexp_of : Option (List Item) → List Item
regexp_of none = []
regexp_of (some r) = r

abbrev below_root : Glob
below_root = record {
  pattern = codes "/**";
  s = codes "^/.*$";
  r = regexp_of (compile (codes "^/.*$"));
}

walk_replies-limit_example : length (walk_replies below_root 3 one_walked none two_files) ≤ 2
walk_replies-limit_example =
    walk_replies-limit below_root 3 one_walked none two_files 1 refl (omega arith)

-- The walk gives the first file and the end.
walked :
    walk_replies below_root 3 one_walked none two_files
    ≡ walk_reply one_walked (codes "/a") [] (pos 1) ∷ respond one_walked done_flag empty ∷ []
unfolding walk_replies walk walk_from walk_visit match_glob match compile get_path check_path split
    get at find names sort_strings insert_sorted bytes_leb bytes_eq ◌+₃₂◌ wrap32 ◌+ℤ◌
walked = refl

abbrev set_event : Event
set_event = record {
  seqn = pos 4;
  path = codes "/a";
  body = codes "x";
  rev = pos 4;
  mut = codes "-1:/a=x";
  err = none;
  getter = two_files;
}

event_of-watch_reply_example :
    ((event_of (λ c. []) (watch_reply second_page set_event)).rev ≡ pos 4)
    × (((event_of (λ c. []) (watch_reply second_page set_event)).path ≡ codes "/a")
        × (((event_of (λ c. []) (watch_reply second_page set_event)).body ≡ codes "x")
            × (((event_of (λ c. []) (watch_reply second_page set_event)).err ≡ none)
                × ((Calls.is_set (event_of (λ c. []) (watch_reply second_page set_event))
                      ≡ is_set set_event)
                    × (Calls.is_del (event_of (λ c. []) (watch_reply second_page set_event))
                        ≡ is_del set_event)))))
event_of-watch_reply_example = event_of-watch_reply (λ c. []) second_page set_event

-- A connection that serves the request, and another one of tag 8.
abbrev serving : Serving
serving = record {
  tx =
      (pos 7, record { id = 1; cancelled = false })
      ∷ (pos 8, record { id = 2; cancelled = false })
      ∷ [];
  done = [];
  poisoned = false;
}

respond-closes_example :
    ((2 / done_flag % 2 ≡ 1)
      × (In 1 (Transactions.respond serving second_page 2 empty true).0.done
          × ((lookup (pos 7) (Transactions.respond serving second_page 2 empty true).0.tx ≡ none)
              × (lookup (pos 8) (Transactions.respond serving second_page 2 empty true).0.tx
                  ≡ lookup (pos 8) serving.tx))))
    ⊎ ((2 / done_flag % 2 ≡ 0)
        × (((Transactions.respond serving second_page 2 empty true).0.tx ≡ serving.tx)
            × ((Transactions.respond serving second_page 2 empty true).0.done ≡ serving.done)))
unfolding lookup
respond-closes_example =
    respond-closes serving second_page 2 empty true (record { id = 1; cancelled = false }) (pos 8)
      refl (λ e. omega (arith, parts_of_eq e))

serve-cancel_own_example :
    ((Transactions.cancel
        (serve serving Verb.cancel second_page 3 true).0
        second_page
        (some (pos 7))
        true).1
      ≡ ([], some 3))
    × (lookup (pos 7) (serve serving Verb.cancel second_page 3 true).0.tx
        ≡ some (record { id = 3; cancelled = false }))
serve-cancel_own_example = serve-cancel_own serving second_page 3 true

abbrev texts : Texts
texts = record {
  enotdir_text = codes "not a directory";
  eisdir_text = codes "is a directory";
  num_error_text = λ s. s;
}

-- A connection to a node that is no CAL.
abbrev no_cal : Conn
no_cal = record { cal = false; choice = none; propose = λ m. zero_event; cancelled = false }

handlers-IsAnswer_example :
    IsAnswer second_page (Handlers.set texts new no_cal second_page)
    × (IsAnswer second_page (Handlers.del texts new no_cal second_page)
        × (IsAnswer second_page (Handlers.nop new no_cal second_page)
            × (IsAnswer second_page (Handlers.rev new second_page)
                × (IsAnswerOrWaits new second_page (Handlers.get new second_page)
                    × IsAnswerOrWaits new second_page (Handlers.stat new second_page)))))
handlers-IsAnswer_example = handlers-IsAnswer texts new no_cal second_page refl
