-- ===== src/Server/Propose.antt =====
-- `Set` and `Del` of src/pkg/consensus/consensus.go, and `Wait` of src/pkg/store/store.go.
use doozer.Common.{ℤ, pos, ltb_ℤ, leb_ℤ, Bytes, none, some, if◌then◌else◌}
use doozer.Store.Mutation.{Encoded, encode_set, encode_del}
use doozer.Store.Event.{Event}
use doozer.Store.Process.{Store, zero_event}

-- The event that carries a mutation that could not be encoded.
abbrev pub proposed : (Bytes → Event) → Encoded → Event
proposed propose e = elim e.err [
  | some x ↦ record zero_event { mut = e.mutation; err = some x }
  | none ↦ propose e.mutation
]

-- `propose` is the one method of a `Proposer`.
unfoldable pub set : (Bytes → Event) → Bytes → Bytes → ℤ → Event
unfolding encode_set
set propose path body rev = proposed propose (encode_set path body rev)

unfoldable pub del : (Bytes → Event) → Bytes → ℤ → Event
unfolding encode_del
del propose path rev = proposed propose (encode_del path rev)

-- What `Wait` gives: an error, the event, or a channel that has none yet.
pub data Waited : Type 0 where
  late : Waited
  ready : Event → Waited
  blocked : Waited

unfoldable pub wait : Store → ℤ → Waited
wait s seqn =
    if ltb_ℤ seqn (pos 1)
    then late
    else if ltb_ℤ seqn s.head
    then late
    else if leb_ℤ seqn s.ver
    then elim (s.log seqn) [ none ↦ blocked | some e ↦ ready e ]
    else blocked
