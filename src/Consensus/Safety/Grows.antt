-- ===== src/Consensus/Safety/Grows.antt =====
-- What has been said, as a family over senders and messages, and how a step of one node adds to it.
use doozer.Common.{Bytes, Option, some, ◌≡◌, ◌⊎◌}
use doozer.Consensus.Message.{M}

abbrev pub Saying : Type 1
Saying = Bytes → M → Type 0

-- Node `n` may have added the one message `out`, and nothing is taken back.
pub record Grows (n : Bytes) (out : Option M) (Said Said' : Saying) : Type 0 where
  pub keep : (a : Bytes) (m : M) → Said a m → Said' a m
  pub fresh : (a : Bytes) (m : M) → Said' a m → Said a m ⊎ ((a ≡ n) × (out ≡ some m))
  pub added : (m : M) → out ≡ some m → Said' n m
