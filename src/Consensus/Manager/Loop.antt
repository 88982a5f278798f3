-- ===== src/Consensus/Manager/Loop.antt =====
-- The loop of `newManager` of src/pkg/consensus/manager.go.
pub mod Queues
pub mod Fills
use doozer.Common.{
  ℕ, zero, suc, ◌+◌, length, ℤ, pos, pos_part, ◌-ℤ◌, ◌+₆₄◌, ltb_ℤ, leb_ℤ, Bool, true, false, Bytes,
  codes, List, [], ◌∷◌, ◌++◌, Option, none, some, if◌then◌else◌, lookup, insert, erase, int_key,
  to_list,
}
use doozer.Consensus.Message.{Cmd, tick, propose, M, Packet, propose_msg, tick_msg}
use doozer.Consensus.Run
use doozer.Consensus.Run.{Datagram, Trigger, Op, Env, Run, is_leader, sched_trigger}
use doozer.Consensus.Manager.{recv_packet}
use doozer.Consensus.Manager.Triggers.{packet_seqn, push_packet, push_trigger, apply_triggers}

-- The variables of the loop. `nop_mut` is `store.Nop`.
pub record Manager : Type 0 where
  pub running : List (ℤ × Run)
  pub packets : List Packet
  pub fills : List Trigger
  pub ticks : List Trigger
  pub next_run : ℤ
  pub next_fill : ℤ
  pub total_fills : ℤ
  pub total_ticks : ℤ

abbrev pub start : ℤ → Manager
start next_fill = record {
  running = [];
  packets = [];
  fills = [];
  ticks = [];
  next_run = pos 0;
  next_fill = next_fill;
  total_fills = pos 0;
  total_ticks = pos 0;
}

pub record Stats : Type 0 where
  pub runs : ℕ
  pub wait_packets : ℕ
  pub wait_fills : ℕ
  pub wait_ticks : ℕ
  pub running : ℕ
  pub total_fills : ℤ
  pub total_ticks : ℤ

abbrev pub stats : Manager → Stats
stats mg = record {
  runs = length mg.running;
  wait_packets = length mg.packets;
  wait_fills = length mg.fills;
  wait_ticks = length mg.ticks;
  running = length mg.running;
  total_fills = mg.total_fills;
  total_ticks = mg.total_ticks;
}

-- What the loop receives. `report` is a send of the statistics.
pub data Input : Type 0 where
  run : Run → Input
  packet : Bytes → Bytes → Input
  report : Input
  prop : ℤ → Bytes → Input
  ticker : ℤ → Input

-- What a turn does outside of the variables: a position for a proposer, datagrams, operations for the
-- store, and the packets that `sendLearn` is started with.
pub record Effects : Type 0 where
  pub prop_seqns : List ℤ
  pub out : List Datagram
  pub ops : List Op
  pub asked : List Packet

abbrev pub no_effects : Effects
no_effects = record { prop_seqns = []; out = []; ops = []; asked = [] }

abbrev pub nop_mut : Bytes
nop_mut = codes "nop:"

abbrev pub push_all : Option Trigger → List Trigger → List Trigger
push_all none ts = ts
push_all (some t) ts = push_trigger t ts

-- The result of `propose_msg none` and `tick_msg none` as templates.
abbrev pub fill_template : M
fill_template = propose_msg none nop_mut

abbrev pub tick_template : M
tick_template = tick_msg none

module _ (env : Env) (unmarshal : Bytes → Option M) (fill_delay : ℤ) where
  -- `for nextFill < pr.Seqn`, which runs at most `pr.Seqn - nextFill` times.
  unfoldable pub schedule_fills : ℕ → ℤ → Manager → Manager
  schedule_fills zero seqn mg = mg
  schedule_fills (suc f) seqn mg =
      let rest = schedule_fills f seqn (record mg {
        fills = push_trigger (sched_trigger env mg.next_fill fill_delay) mg.fills;
        next_fill = mg.next_fill +₆₄ pos 1;
      }) in
      if ltb_ℤ mg.next_fill seqn then rest else mg

  -- A turn of the loop that delivers packets: `r.update(p, ticks)`, and the run is dropped when it has
  -- learned.
  unfoldable pub update_run : Run → Packet → Manager → Manager × Effects
  update_run r p mg =
      let e = Run.update env r p in
      let seqn = packet_seqn p in
      (
        record mg {
          running = if e.learned then erase seqn mg.running else insert seqn e.run mg.running;
          ticks = push_all e.tick mg.ticks;
        },
        record { prop_seqns = []; out = e.out; ops = to_list e.op; asked = [] },
      )

  unfoldable pub deliver_one : Packet → Manager → Manager × Effects
  unfolding update_run
  deliver_one p mg = elim (lookup (packet_seqn p) mg.running) [
    | none ↦ (mg, record no_effects { asked = p ∷ [] })
    | some r ↦ update_run r p mg
  ]

  abbrev pub both : Effects → Effects → Effects
  both a b = record {
    prop_seqns = a.prop_seqns ++ b.prop_seqns;
    out = a.out ++ b.out;
    ops = a.ops ++ b.ops;
    asked = a.asked ++ b.asked;
  }

  -- `for packets.Len() > 0`, over the queue, which no update adds to.
  unfoldable pub deliver : List Packet → Manager → Effects → Manager × Effects
  unfolding deliver_one
  deliver [] mg e = (record mg { packets = [] }, e)
  deliver (p ∷ ps) mg e =
      let (mg', e') = deliver_one p mg in
      let onward = deliver ps mg' (both e e') in
      if leb_ℤ mg.next_run (packet_seqn p) then (record mg { packets = p ∷ ps }, e) else onward

  abbrev pub receive : Option Packet → Manager → Manager
  receive none mg = mg
  receive (some p) mg = record mg { packets = push_packet p mg.packets }

  -- The `select`.
  unfoldable pub take_input : Bytes → Input → Manager → Manager × Effects
  unfolding schedule_fills
  take_input self (run r) mg = (
    record mg { running = insert r.seqn r mg.running; next_run = r.seqn +₆₄ pos 1 },
    if is_leader r self then record no_effects { prop_seqns = r.seqn ∷ [] } else no_effects,
  )
  take_input self (packet addr payload) mg =
      (receive (recv_packet unmarshal addr payload) mg, no_effects)
  take_input self report mg = (mg, no_effects)
  take_input self (prop seqn mut) mg =
      let mg₁ = record mg {
        packets = push_packet (record { addr = []; m = propose_msg (some seqn) mut }) mg.packets;
      } in
      let mg₂ = schedule_fills (pos_part (seqn -ℤ mg.next_fill)) seqn mg₁ in
      (record mg₂ { next_fill = mg₂.next_fill +₆₄ pos 1 }, no_effects)
  take_input self (ticker t) mg =
      let (ps, fills, n) = apply_triggers mg.packets mg.fills t fill_template in
      let (ps', ticks, k) = apply_triggers ps mg.ticks t tick_template in
      (
        record mg {
          packets = ps';
          fills = fills;
          ticks = ticks;
          total_fills = mg.total_fills +₆₄ pos n;
          total_ticks = mg.total_ticks +₆₄ pos k;
        },
        no_effects,
      )

  unfoldable pub step : Bytes → Manager → Input → Manager × Effects
  unfolding take_input deliver
  step self mg i = let (mg₁, e) = take_input self i mg in deliver mg₁.packets mg₁ e

-- The loop over its inputs, each with the clock and the random numbers of its turn.
unfoldable pub turns : (Bytes → Option M) → ℤ → Bytes → Manager → List (Env × Input) → Manager
turns unmarshal fill_delay self mg [] = mg
turns unmarshal fill_delay self mg ((env, i) ∷ is) =
    turns unmarshal fill_delay self (step env unmarshal fill_delay self mg i).0 is
