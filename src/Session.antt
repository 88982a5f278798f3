-- ===== src/Session.antt =====
-- src/pkg/session/session.go: the sessions whose lease is over.
pub mod Expiry
mod Tests
use doozer.Common.{
  ℕ, ℤ, ltb_ℤ, Bool, false, Bytes, bytes_key, codes, List, [], ◌∷◌, ◌++◌, insert, if◌then◌else◌,
}
use doozer.Store.Number.{atoi64}
use doozer.Store.Node.{Node}
use doozer.Store.Event.{Event}
use doozer.Store.Getter.{walk}
use doozer.Store.Glob.{Glob, match_glob}
use doozer.Server.Propose

-- The visitor of `expired`; the map is an association list.
abbrev pub expire : ℤ → Bytes → Bytes → ℤ → List (Bytes × ℤ) → List (Bytes × ℤ) × Bool
expire now path body rev exps =
    (if ltb_ℤ (atoi64 body).0 now then insert path rev exps else exps, false)

-- `sessions` is the compiled glob.
unfoldable pub expired : Glob → ℕ → Node → ℤ → List (Bytes × ℤ)
unfolding walk insert atoi64 match_glob
expired sessions f g now = (walk g (match_glob sessions) (expire now) f []).0

-- `delAll`, with the events that its proposals give.
unfoldable pub del_all : (Bytes → Event) → List (Bytes × ℤ) → List Event
unfolding Propose.del
del_all propose [] = []
del_all propose ((path, rev) ∷ files) = Propose.del propose path rev ∷ del_all propose files

-- `Clean` over its ticks, each with the tree of its time.
unfoldable pub clean : (Bytes → Event) → Glob → ℕ → List (ℤ × Node) → List Event
unfolding expired del_all
clean propose sessions f [] = []
clean propose sessions f ((now, g) ∷ ticks) =
    del_all propose (expired sessions f g now) ++ clean propose sessions f ticks
