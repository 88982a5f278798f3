-- ===== src/Session/Tests.antt =====
-- A session whose time is over, at a concrete tree.
use doozer.Common.{pos, codes, List, [], ◌∷◌, none, some, All, bytes_eq, insert, ◌≡◌, refl, Option}
use doozer.Store.Number.{atoi64, atoui64, digits_value}
use doozer.Store.Node.{Node, node, nil, entry, dir, get_path, get, at, find, names}
use doozer.Store.Path.{check_path, split}
use doozer.Store.Getter.{walk, walk_from, sort_strings, insert_sorted, bytes_leb}
use doozer.Store.Glob.{Glob, match_glob}
use doozer.Store.Glob.Regexp.{Item, compile, match}
use doozer.Session.{expired}
use doozer.Session.Expiry.{IsOver, expired-IsOver}

abbrev two_sessions : Node
two_sessions = node [] dir (
    entry (codes "ctl")
      (node [] dir (
        entry (codes "sess")
          (node [] dir (
            entry (codes "a") (node (codes "5") (pos 1) nil)
              (entry (codes "b") (node (codes "9") (pos 2) nil) nil)))
          nil))
      nil)

abbrev items : Option (List Item) → List Item
items none = []
items (some r) = r

abbrev sessions : Glob
sessions = record {
  pattern = codes "/ctl/sess/*";
  s = codes "^/ctl/sess/[^/]*$";
  r = items (compile (codes "^/ctl/sess/[^/]*$"));
}

expired-IsOver_example :
    All (IsOver sessions two_sessions (pos 7)) (expired sessions 9 two_sessions (pos 7))
expired-IsOver_example = expired-IsOver sessions 9 two_sessions (pos 7)

ends : expired sessions 4 two_sessions (pos 7) ≡ (codes "/ctl/sess/a", pos 1) ∷ []
unfolding expired walk walk_from match_glob match compile atoi64 atoui64 digits_value insert
    get_path get at find names check_path split sort_strings insert_sorted bytes_leb bytes_eq
ends = refl
