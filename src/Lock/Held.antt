-- ===== src/Lock/Held.antt =====
-- Which locks `Clean` of src/pkg/lock/lock.go releases.
use doozer.Common.{ℕ, ℤ, true, Bytes, bytes_eq, bytes_eq_sound, [], All, if_cases, ◌≡◌, subst}
use doozer.Store.Event.{Event, is_del}
use doozer.Store.Glob.{Glob, match_glob}
use doozer.Store.Getter.Walked.{IsFile, walk-keeps}
use doozer.Lock.{collect, session_name, to_release}

-- A lock whose body is the name of the session of a deletion.
abbrev pub IsHeld : Glob → Event → Bytes × ℤ → Type 0
IsHeld locks ev x =
    (is_del ev ≡ true) × IsFile ev.getter (match_glob locks) x.0 (session_name ev.path) x.1

-- What is released after an event of a session: nothing unless the event is a deletion, and then only
-- files under the glob of the locks whose body is the session's name, each at its revision.
pub to_release-IsHeld :
    (locks : Glob) (f : ℕ) (ev : Event) → All (IsHeld locks ev) (to_release locks f ev)
unfolding to_release
to_release-IsHeld locks f ev =
    if_cases (All (IsHeld locks ev)) (is_del ev)
      (λ d.
        walk-keeps ev.getter (match_glob locks) (collect (session_name ev.path))
          (All (IsHeld locks ev))
          (λ path body rev found h k.
            if_cases (All (IsHeld locks ev)) (bytes_eq body (session_name ev.path))
              (λ e. (
                (
                  d,
                  subst (λ b. IsFile ev.getter (match_glob locks) path b rev)
                      (bytes_eq_sound body (session_name ev.path) e) h,
                ),
                k,
              ))
              (λ e. k))
          f [] tt)
      (λ d. tt)
