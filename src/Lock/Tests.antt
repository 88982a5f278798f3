-- ===== src/Lock/Tests.antt =====
-- The locks of a session that has ended, at a concrete tree.
use doozer.Common.{pos, codes, [], ◌∷◌, none, All}
use doozer.Store.Node.{Node, node, nil, entry, dir}
use doozer.Store.Event.{Event}
use doozer.Store.Glob.{Glob}
use doozer.Store.Glob.Regexp.{one, many, lit, any}
use doozer.Lock.{to_release}
use doozer.Lock.Held.{IsHeld, to_release-IsHeld}

abbrev one_lock : Node
one_lock =
    node [] dir (
      entry (codes "lock") (node [] dir (entry (codes "x") (node (codes "s") (pos 3) nil) nil)) nil)

-- The deletion of session s.
abbrev ended : Event
ended = record {
  seqn = pos 5;
  path = codes "/ctl/sess/s";
  body = [];
  rev = pos 0;
  mut = [];
  err = none;
  getter = one_lock;
}

-- A glob that matches every path that begins with a slash.
abbrev rooted : Glob
rooted = record { pattern = codes "/**"; s = codes "^/.*$"; r = one (lit b'/') ∷ many any ∷ [] }

to_release-IsHeld_example : All (IsHeld rooted ended) (to_release rooted 5 ended)
to_release-IsHeld_example = to_release-IsHeld rooted 5 ended
