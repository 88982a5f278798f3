-- ===== src/Consensus/Manager/Loop/Queues.antt =====
-- The queue of packets of the manager's loop.
use doozer.Common.Heap.{IsSorted, All-push, push-IsSorted, IsSorted-above}
use doozer.Common.{
  ℕ, zero, suc, ℤ, ◌≤ℤ◌, leb_ℤ, Bytes, List, [], ◌∷◌, All, Option, none, some, if_cases, ltb_ℤ,
  Option-cases, int_key, ◌≡◌, refl, sym, ap, ◌∙◌, inl, inr, arith,
}
use doozer.Consensus.Message.{M, Packet}
use doozer.Consensus.Run.{Trigger, Env}
use doozer.Consensus.Manager.{recv_packet, decoded, with_seqn}
use doozer.Consensus.Manager.Triggers.{packet_seqn, push_packet, apply_triggers, from_template}
use doozer.Consensus.Manager.Loop.{
  Manager, Input, run, packet, report, prop, ticker, Effects, start, schedule_fills, deliver,
  receive, take_input, step, turns,
}

-- Every packet of the queue has a position, and the queue is in the order of positions.
pub record IsQueue (ps : List Packet) : Type 0 where
  pub placed : All (λ p. (q : ℤ) × (p.m.seqn ≡ some q)) ps
  pub sorted : IsSorted packet_seqn ps

push-IsQueue :
    (p : Packet) {ps : List Packet} (q : ℤ)
    → p.m.seqn ≡ some q
    → IsQueue ps
    → IsQueue (push_packet p ps)
unfolding push_packet
push-IsQueue p {ps} q e h = record {
  placed =
      All-push packet_seqn (λ (p : Packet). (q : ℤ) × (p.m.seqn ≡ some q)) p ps (q, e) h.placed;
  sorted = push-IsSorted packet_seqn p ps h.sorted;
}

apply_triggers-IsQueue :
    (ps : List Packet) (ts : List Trigger) (now : ℤ) (tpl : M)
    → IsQueue ps
    → IsQueue (apply_triggers ps ts now tpl).0
unfolding apply_triggers
apply_triggers-IsQueue ps [] now tpl h = h
apply_triggers-IsQueue ps (t ∷ ts) now tpl h =
    if_cases (λ (r : List Packet × List Trigger × ℕ). IsQueue r.0) (ltb_ℤ now t.t) (λ e. h)
      (λ e.
        apply_triggers-IsQueue (push_packet (from_template tpl t.n) ps) ts now tpl
          (push-IsQueue (from_template tpl t.n) t.n refl h))

with_seqn-placed :
    (addr : Bytes) (m : M) (seqn : Option ℤ) {p : Packet}
    → m.seqn ≡ seqn
    → with_seqn addr m seqn ≡ some p
    → (q : ℤ) × (p.m.seqn ≡ some q)
unfolding with_seqn
with_seqn-placed addr m none h e = cc
with_seqn-placed addr m (some q) h e = (q, ap seqn_of (sym e) ∙ h)
  where
    seqn_of : Option Packet → Option ℤ
    seqn_of o = elim o [ none ↦ none | some x ↦ x.m.seqn ]

decoded-placed :
    (addr : Bytes) (o : Option M) {p : Packet}
    → decoded addr o ≡ some p
    → (q : ℤ) × (p.m.seqn ≡ some q)
unfolding decoded
decoded-placed addr none e = cc
decoded-placed addr (some m) e = with_seqn-placed addr m m.seqn refl e

recv_packet-placed :
    (unmarshal : Bytes → Option M) (addr payload : Bytes) {p : Packet}
    → recv_packet unmarshal addr payload ≡ some p
    → (q : ℤ) × (p.m.seqn ≡ some q)
unfolding recv_packet
recv_packet-placed unmarshal addr payload e = decoded-placed addr (unmarshal payload) e

-- What waits is not for a run that has been announced.
abbrev pub Waits : Manager → Type 0
Waits mg = IsQueue mg.packets × All (λ p. mg.next_run ≤ℤ packet_seqn p) mg.packets

module _ (env : Env) (unmarshal : Bytes → Option M) (fill_delay : ℤ) where
  schedule_fills-packets :
      (f : ℕ) (seqn : ℤ) (mg : Manager)
      → (schedule_fills env unmarshal fill_delay f seqn mg).packets ≡ mg.packets
  unfolding schedule_fills
  schedule_fills-packets zero seqn mg = refl
  schedule_fills-packets (suc f) seqn mg =
      if_cases (λ (x : Manager). x.packets ≡ mg.packets) (ltb_ℤ mg.next_fill seqn)
        (λ e. schedule_fills-packets f seqn _) (λ e. refl)

  deliver-Waits :
      (ps : List Packet) (mg : Manager) (e : Effects)
      → IsQueue ps
      → Waits (deliver env unmarshal fill_delay ps mg e).0
  unfolding deliver
  deliver-Waits [] mg e h = (record { placed = tt; sorted = tt }, tt)
  deliver-Waits (p ∷ ps) mg e h =
      if_cases (λ (x : Manager × Effects). Waits x.0) (leb_ℤ mg.next_run (packet_seqn p))
        (λ k. (h, IsSorted-above packet_seqn mg.next_run p ps (ground arith) h.sorted))
        (λ k. deliver-Waits ps _ _ (record { placed = h.placed.1; sorted = h.sorted.1 }))

  receive-IsQueue :
      (addr payload : Bytes) (mg : Manager)
      → IsQueue mg.packets
      → IsQueue (receive env unmarshal fill_delay (recv_packet unmarshal addr payload) mg).packets
  receive-IsQueue addr payload mg h = elim (Option-cases (recv_packet unmarshal addr payload)) [
    | inl e ↦ rw e h
    | inr (p, e) ↦
        let (q, k) = recv_packet-placed unmarshal addr payload e in rw e (push-IsQueue p q k h)
  ]

  take_input-IsQueue :
      (self : Bytes) (i : Input) (mg : Manager)
      → IsQueue mg.packets
      → IsQueue (take_input env unmarshal fill_delay self i mg).0.packets
  unfolding take_input
  take_input-IsQueue self (run r) mg h = h
  take_input-IsQueue self (packet addr payload) mg h = receive-IsQueue addr payload mg h
  take_input-IsQueue self report mg h = h
  take_input-IsQueue self (prop seqn mut) mg h =
      rw (schedule_fills-packets _ seqn _) (push-IsQueue _ seqn refl h)
  take_input-IsQueue self (ticker t) mg h =
      apply_triggers-IsQueue _ mg.ticks t _ (apply_triggers-IsQueue mg.packets mg.fills t _ h)

  step-Waits :
      (self : Bytes) (mg : Manager) (i : Input)
      → IsQueue mg.packets
      → Waits (step env unmarshal fill_delay self mg i).0
  unfolding step
  step-Waits self mg i h = deliver-Waits _ _ _ (take_input-IsQueue self i mg h)

turns_from-Waits :
    (unmarshal : Bytes → Option M) (fill_delay : ℤ) (self : Bytes) (mg : Manager)
    (is : List (Env × Input))
    → Waits mg
    → Waits (turns unmarshal fill_delay self mg is)
unfolding turns
turns_from-Waits unmarshal fill_delay self mg [] h = h
turns_from-Waits unmarshal fill_delay self mg ((env, i) ∷ is) h =
    turns_from-Waits unmarshal fill_delay self (step env unmarshal fill_delay self mg i).0 is
      (step-Waits env unmarshal fill_delay self mg i h.0)

-- After any turns of the manager every packet that waits has a position, which is not below the
-- position of the next run; the packets wait in the order of their positions.
pub turns-Waits :
    (unmarshal : Bytes → Option M) (fill_delay : ℤ) (self : Bytes) (next_fill : ℤ)
    (is : List (Env × Input))
    → Waits (turns unmarshal fill_delay self (start next_fill) is)
turns-Waits unmarshal fill_delay self next_fill is =
    turns_from-Waits unmarshal fill_delay self (start next_fill) is
      (record { placed = tt; sorted = tt }, tt)
