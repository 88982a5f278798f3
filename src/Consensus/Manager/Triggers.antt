-- ===== src/Consensus/Manager/Triggers.antt =====
-- The queues of src/pkg/consensus/manager.go, and `applyTriggers`. A heap is the list of its elements
-- in order; which of two equal elements comes first is open in the code.
use doozer.Common.Heap
use doozer.Common.{ℕ, suc, ℤ, pos, ltb_ℤ, none, some, [], List, ◌∷◌, if◌then◌else◌}
use doozer.Consensus.Message.{M, Packet}
use doozer.Consensus.Run.{Trigger}

-- The key that `packet.Less` reads. Every packet of the queue has a position.
abbrev pub packet_seqn : Packet → ℤ
packet_seqn p = elim p.m.seqn [ none ↦ pos 0 | some q ↦ q ]

-- `heap.Push`, with `packet.Less` and `trigger.Less`.
unfoldable pub push_packet : Packet → List Packet → List Packet
push_packet = Heap.push packet_seqn

unfoldable pub push_trigger : Trigger → List Trigger → List Trigger
push_trigger = Heap.push (λ (t : Trigger). t.t)

abbrev pub from_template : M → ℤ → Packet
from_template tpl n = record { addr = []; m = record tpl { seqn = some n } }

-- The packets, the triggers that are left, and how many were due.
unfoldable pub apply_triggers : List Packet → List Trigger → ℤ → M → List Packet × List Trigger × ℕ
unfolding push_packet
apply_triggers packets [] now tpl = (packets, [], 0)
apply_triggers packets (t ∷ ts) now tpl =
    let (ps, left, n) = apply_triggers (push_packet (from_template tpl t.n) packets) ts now tpl in
    if ltb_ℤ now t.t then (packets, t ∷ ts, 0) else (ps, left, suc n)
