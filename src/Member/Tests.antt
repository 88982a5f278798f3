-- ===== src/Member/Tests.antt =====
-- A slot that is cleared, at a concrete tree.
use doozer.Common.{pos, codes, Bytes, [], ◌∷◌, All}
use doozer.Store.Node.{Node, node, nil, entry, dir}
use doozer.Store.Event.{Event}
use doozer.Store.Glob.{Glob}
use doozer.Store.Glob.Regexp.{one, many, lit, any}
use doozer.Store.Process.{zero_event}
use doozer.Member.{clear_slot}
use doozer.Member.Cleared.{IsCleared, clear_slot-IsCleared}

abbrev one_slot : Node
one_slot =
    node [] dir
      (entry (codes "cal") (node [] dir (entry (codes "0") (node (codes "n") (pos 3) nil) nil)) nil)

-- A glob that matches every path that begins with a slash.
abbrev rooted : Glob
rooted = record { pattern = codes "/**"; s = codes "^/.*$"; r = one (lit b'/') ∷ many any ∷ [] }

abbrev answer : Bytes → Event
answer mut = record zero_event { mut = mut }

clear_slot-IsCleared_example :
    All
      (IsCleared answer rooted one_slot (codes "n"))
      (clear_slot answer rooted 5 one_slot (codes "n"))
clear_slot-IsCleared_example = clear_slot-IsCleared answer rooted 5 one_slot (codes "n")
