-- ===== src/Gc.antt =====
-- src/pkg/gc: the positions that a store forgets, and the position that a node announces.
use doozer.Common.{ℤ, ◌-₆₄◌, Bytes, codes, List, [], ◌∷◌, ◌++◌}
use doozer.Store.Number.{itoa64}
use doozer.Store.Node.{clobber}
use doozer.Store.Event.{Event}
use doozer.Server.Propose

-- What `Clean` sends to the store at each tick, for the positions that it reads.
unfoldable pub clean : ℤ → List ℤ → List ℤ
unfolding ◌-₆₄◌
clean keep [] = []
clean keep (seqn ∷ seqns) = (seqn -₆₄ keep) ∷ clean keep seqns

abbrev pub applied_path : Bytes → Bytes
applied_path node = codes "/ctl/node/" ++ (node ++ codes "/applied")

-- `Pulse`, for the positions that it reads, with the events of its proposals.
unfoldable pub pulse : (Bytes → Event) → Bytes → List ℤ → List Event
unfolding Propose.set itoa64
pulse propose node [] = []
pulse propose node (seqn ∷ seqns) =
    Propose.set propose (applied_path node) (itoa64 seqn) clobber ∷ pulse propose node seqns
