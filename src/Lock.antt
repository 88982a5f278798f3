-- ===== src/Lock.antt =====
-- src/pkg/lock/lock.go: the locks of a session that has ended.
pub mod Held
mod Tests
use doozer.Common.{
  ℕ, suc, ℤ, Bool, false, Bytes, bytes_eq, codes, List, [], ◌∷◌, ◌++◌, length, Option, none, some,
  if◌then◌else◌,
}
use doozer.Store.Node.{Node}
use doozer.Store.Event.{Event, is_del}
use doozer.Store.Getter.{walk}
use doozer.Store.Glob.{Glob, match_glob}
use doozer.Server.Getdir.{drop}
use doozer.Server.Propose

abbrev pub sess_dir : Bytes
sess_dir = codes "/ctl/sess"

-- `ev.Path[len(SessDir)+1:]`; the watch gives paths of sessions only, which are longer.
abbrev pub session_name : Bytes → Bytes
session_name path = drop (suc (length sess_dir)) path

-- The visitor: the files that a deletion is proposed for, the last one first.
abbrev pub collect : Bytes → Bytes → Bytes → ℤ → List (Bytes × ℤ) → List (Bytes × ℤ) × Bool
collect name path body rev found =
    (if bytes_eq body name then (path, rev) ∷ found else found, false)

-- `locks` is the compiled glob.
unfoldable pub to_release : Glob → ℕ → Event → List (Bytes × ℤ)
unfolding is_del walk match_glob
to_release locks f ev =
    if is_del ev
    then (walk ev.getter (match_glob locks) (collect (session_name ev.path)) f []).0
    else []

unfoldable pub release : (Bytes → Event) → List (Bytes × ℤ) → List Event
unfolding Propose.del
release propose [] = []
release propose ((path, rev) ∷ files) = Propose.del propose path rev ∷ release propose files

-- `Clean` over the events of the sessions.
unfoldable pub clean : (Bytes → Event) → Glob → ℕ → List Event → List Event
unfolding to_release release
clean propose locks f [] = []
clean propose locks f (ev ∷ evs) =
    release propose (to_release locks f ev) ++ clean propose locks f evs
