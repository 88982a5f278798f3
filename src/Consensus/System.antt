-- ===== src/Consensus/System.antt =====
-- The nodes of a cluster at one position of the log, the datagrams between them, and the schedule.
-- A datagram may be delivered at any later time, any number of times, or never.
use doozer.Common.{
  ℕ, ℤ, ◌+₆₄◌, eqb_ℤ, Bool, true, false, Bytes, dec_in, Option, none, some, List, [], ◌∷◌, ◌++◌,
  map, get_elem?, if◌then◌else◌, put,
}
use doozer.Consensus.Message.{M, Packet, propose_msg, tick_msg}
use doozer.Consensus.Run
use doozer.Consensus.Run.{Datagram, Op, Env, Run, template, new_run}
use doozer.Consensus.Manager.{recv_packet, send_learn}

-- The event that starts the runs of a position, the CALs that it names, the addresses of the nodes,
-- and the id of the node at an address.
pub record Cluster : Type 0 where
  pub event_seqn : ℤ
  pub alpha : ℤ
  pub cals : List Bytes
  pub nodes : List Bytes
  pub name : Bytes → Bytes

pub record Sent : Type 0 where
  pub from : Bytes
  pub datagram : Datagram

pub record System : Type 0 where
  pub runs : Bytes → Run
  pub sent : List Sent

abbrev pub cluster_seqn : Cluster → ℤ
cluster_seqn cl = cl.event_seqn +₆₄ cl.alpha

unfoldable pub start_run : Cluster → Bytes → Run
start_run cl n =
    new_run (template (cl.name n)) cl.event_seqn cl.alpha cl.cals (map (λ a. (a, true)) cl.nodes)

abbrev pub start : Cluster → System
start cl = record { runs = start_run cl; sent = [] }

-- What the schedule chooses: the delivery of a datagram, a proposal or a timer of a node.
pub data Event : Type 0 where
  deliver : ℕ → Event
  propose : Bytes → Bytes → Event
  tick : Bytes → Event

abbrev pub for_seqn : ℤ → Option ℤ → Bool
for_seqn q none = false
for_seqn q (some s) = eqb_ℤ s q

module _ (env : Env) (unmarshal : Bytes → Option M) (cl : Cluster) where
  abbrev pub tag : Bytes → List Datagram → List Sent
  tag n = map (λ d. record { from = n; datagram = d })

  -- A run that has learned is gone from `running`, and the manager answers from the store.
  unfoldable pub handle : System → Bytes → Packet → System
  handle s n p =
      let r = s.runs n in
      if r.l.done
      then record s {
        sent = s.sent ++ tag n (send_learn env p (some (record { seqn = r.seqn; mut = r.l.v })));
      }
      else let e = Run.update env r p in
        record { runs = put s.runs n e.run; sent = s.sent ++ tag n e.out }

  -- Packets for another position go to another run; only nodes of the cluster take part.
  unfoldable pub receive : System → Bytes → Packet → System
  receive s n p =
      if for_seqn (cluster_seqn cl) p.m.seqn
      then elim (dec_in n cl.nodes) [ yes _ ↦ handle s n p | no _ ↦ s ]
      else s

  abbrev pub arrive : System → Bytes → Option Packet → System
  arrive s n none = s
  arrive s n (some p) = receive s n p

  abbrev pub deliver_sent : System → Option Sent → System
  deliver_sent s none = s
  deliver_sent s (some d) =
      arrive s d.datagram.addr (recv_packet unmarshal d.from d.datagram.payload)

  abbrev pub local_packet : M → Packet
  local_packet m = record { addr = []; m = m }

  unfoldable pub step : System → Event → System
  step s (deliver k) = deliver_sent s (get_elem? s.sent k)
  step s (propose n v) = receive s n (local_packet (propose_msg (some (cluster_seqn cl)) v))
  step s (tick n) = receive s n (local_packet (tick_msg (some (cluster_seqn cl))))

  unfoldable pub run_events : System → List Event → System
  run_events s [] = s
  run_events s (e ∷ es) = run_events (step s e) es
