-- ===== src/Server/Shared.antt =====
-- The responses in memory that `respond` of src/pkg/server/server.go writes to and marshals. The constant
-- ones (`missingArg`, `isDir`, `readonly` and the like) are shared by every goroutine of every connection.
use doozer.Common.{ℕ, ℤ, List, [], ◌∷◌, ◌++◌, Option, if◌then◌else◌, ◌==◌, ◌≢◌}
use doozer.Server.Request.{Reply}

-- The responses by their addresses, and the replies that were marshalled, in order.
pub record Memory : Type 0 where
  pub cells : ℕ → Reply
  pub sent : List Reply

-- The accesses of a call of `respond`, in its order. Those of calls at the same time interleave.
pub data Access : Type 0 where
  write_tag : ℕ → Option ℤ → Access
  write_flags : ℕ → ℕ → Access
  marshal : ℕ → Access

abbrev pub put_cell : (ℕ → Reply) → ℕ → Reply → ℕ → Reply
put_cell cells a r b = if a == b then r else cells b

unfoldable pub access : Memory → Access → Memory
access m (write_tag a tag) = record m {
  cells = put_cell m.cells a (record (m.cells a) { tag = tag });
}
access m (write_flags a flags) = record m {
  cells = put_cell m.cells a (record (m.cells a) { flags = flags });
}
access m (marshal a) = record m { sent = m.sent ++ m.cells a ∷ [] }

unfoldable pub accesses : Memory → List Access → Memory
unfolding access
accesses m [] = m
accesses m (s ∷ ss) = accesses (access m s) ss

-- The access does not write to the response.
abbrev pub IsElsewhere : ℕ → Access → Type 0
IsElsewhere a (write_tag b tag) = b ≢ a
IsElsewhere a (write_flags b flags) = b ≢ a
IsElsewhere a (marshal b) = Unit
