-- ===== src/Consensus/Coordinator.antt =====
-- src/pkg/consensus/coordinator.go
use doozer.Common.{
  ℕ, ℤ, pos, ltb_ℤ, eqb_ℤ, eqb_ℤ_iff, ◌+₆₄◌, Bool, true, false, not, ◌≤◌, leb, Bytes, bytes_eq,
  bytes_eq_iff, Option, none, some, List, [], ◌≡◌, refl, if◌then◌else◌, length, insert, bytes_key,
  if_cases, arith,
}
use doozer.Consensus.Message.{Cmd, rsvp, tick, propose, M, Packet, invite_msg, nominate_msg}

-- `size` and `quor` are lengths of lists, so not negative.
pub record Coordinator : Type 0 where
  pub size : ℕ
  pub quor : ℕ
  pub begun : Bool
  pub target : Bytes
  pub crnd : ℤ
  pub cval : Bytes
  pub rsvps : List (Bytes × Bool)
  pub vr : ℤ
  pub vv : Bytes
  pub sched : Bool

-- The zero value of the struct.
abbrev pub zero_coordinator : Coordinator
zero_coordinator = record {
  size = 0;
  quor = 0;
  begun = false;
  target = [];
  crnd = pos 0;
  cval = [];
  rsvps = [];
  vr = pos 0;
  vv = [];
  sched = false;
}

-- What `update` changes or returns: the state, a message to send, and `wantTick`.
abbrev pub Result : Type 0
Result = Coordinator × Option M × Bool

abbrev pub started : Coordinator → Bytes → Coordinator
started co v = record co { begun = true; target = v; vr = pos 0; vv = []; rsvps = []; cval = [] }

on_propose : Coordinator → Bytes → Result
on_propose co v =
    if co.begun then (co, none, false) else (started co v, some (invite_msg none co.crnd), true)

-- The update of the highest vote heard of, and of the set of nodes heard from.
abbrev pub heard : Coordinator → Bytes → ℤ → Bytes → Coordinator
heard co addr vrnd vval =
    let newer = ltb_ℤ co.vr vrnd in
    record co {
      vr = if newer then vrnd else co.vr;
      vv = if newer then vval else co.vv;
      rsvps = insert addr true co.rsvps;
    }

-- The value to nominate.
abbrev pub choice : Coordinator → Bytes
choice co = if ltb_ℤ (pos 0) co.vr then co.vv else co.target

nominate_if_quorum : Coordinator → Result
nominate_if_quorum co =
    if leb co.quor (length co.rsvps)
    then (record co { cval = choice co }, some (nominate_msg none co.crnd (choice co)), false)
    else (co, none, false)

on_rsvp : Coordinator → Bytes → Option ℤ → Option ℤ → Bytes → Result
unfolding nominate_if_quorum
on_rsvp co addr (some i) (some vrnd) vval =
    if not co.begun
    then (co, none, false)
    else if not (bytes_eq co.cval [])
    then (co, none, false)
    else if not (eqb_ℤ i co.crnd)
    then (co, none, false)
    else nominate_if_quorum (heard co addr vrnd vval)
on_rsvp co addr _ _ vval = (co, none, false)

abbrev pub next_round : Coordinator → Coordinator
next_round co = record co {
  crnd = co.crnd +₆₄ pos co.size;
  vr = pos 0;
  vv = [];
  rsvps = [];
  cval = [];
  sched = false;
}

dispatch : Coordinator → Packet → Option Cmd → Result
unfolding on_propose on_rsvp
dispatch co p (some propose) = on_propose co p.m.value
dispatch co p (some rsvp) = on_rsvp co p.addr p.m.crnd p.m.vrnd p.m.value
dispatch co p (some tick) = (next_round co, some (invite_msg none (next_round co).crnd), true)
dispatch co p _ = (co, none, false)

unfoldable pub update : Coordinator → Packet → Result
unfolding dispatch
update co p = dispatch co p p.m.cmd

-- What one call did.
pub data Outcome (co : Coordinator) (p : Packet) (co' : Coordinator) (out : Option M) : Type 0 where
  ignored : co' ≡ co → out ≡ none → Outcome co p co' out
  begins :
      co.begun ≡ false
      → p.m.cmd ≡ some propose
      → co' ≡ started co p.m.value
      → out ≡ some (invite_msg none co.crnd)
      → Outcome co p co' out
  hears :
      (vrnd : ℤ)
      → co.begun ≡ true
      → co.cval ≡ []
      → p.m.cmd ≡ some rsvp
      → p.m.crnd ≡ some co.crnd
      → p.m.vrnd ≡ some vrnd
      → co' ≡ heard co p.addr vrnd p.m.value
      → out ≡ none
      → Outcome co p co' out
  nominates :
      (vrnd : ℤ) (co₁ : Coordinator)
      → co.begun ≡ true
      → co.cval ≡ []
      → p.m.cmd ≡ some rsvp
      → p.m.crnd ≡ some co.crnd
      → p.m.vrnd ≡ some vrnd
      → co₁ ≡ heard co p.addr vrnd p.m.value
      → co.quor ≤ length co₁.rsvps
      → co' ≡ record co₁ { cval = choice co₁ }
      → out ≡ some (nominate_msg none co.crnd (choice co₁))
      → Outcome co p co' out
  ticks :
      p.m.cmd ≡ some tick
      → co' ≡ next_round co
      → out ≡ some (invite_msg none (next_round co).crnd)
      → Outcome co p co' out

module _ (co : Coordinator) (p : Packet) where
  abbrev Done : Result → Type 0
  Done r = Outcome co p r.0 r.1

  on_propose-Outcome : p.m.cmd ≡ some propose → Done (on_propose co p.m.value)
  unfolding on_propose
  on_propose-Outcome c = if_cases Done co.begun (λ _. ignored refl refl) (λ f. begins f c refl refl)

  heard-Outcome :
      (vrnd : ℤ)
      → co.begun ≡ true
      → co.cval ≡ []
      → p.m.cmd ≡ some rsvp
      → p.m.crnd ≡ some co.crnd
      → p.m.vrnd ≡ some vrnd
      → Done (nominate_if_quorum (heard co p.addr vrnd p.m.value))
  unfolding nominate_if_quorum
  heard-Outcome vrnd b v c e h =
      let co₁ = heard co p.addr vrnd p.m.value in
      if_cases Done (leb co₁.quor (length co₁.rsvps))
        (λ q. nominates vrnd co₁ b v c e h refl (ground arith) refl refl)
        (λ _. hears vrnd b v c e h refl refl)

  on_rsvp-Outcome :
      (crnd vrnd : Option ℤ)
      → p.m.cmd ≡ some rsvp
      → p.m.crnd ≡ crnd
      → p.m.vrnd ≡ vrnd
      → Done (on_rsvp co p.addr crnd vrnd p.m.value)
  unfolding on_rsvp
  on_rsvp-Outcome (some i) (some vrnd) c e h =
      if_cases Done (not co.begun) (λ _. ignored refl refl)
        λ b.
          if_cases Done (not (bytes_eq co.cval [])) (λ _. ignored refl refl)
            λ v.
              if_cases Done (not (eqb_ℤ i co.crnd)) (λ _. ignored refl refl)
                λ s.
                  heard-Outcome vrnd (ground arith) (ground (arith, bytes_eq_iff co.cval [])) c
                    (ground (arith, eqb_ℤ_iff i co.crnd)) h
  on_rsvp-Outcome _ _ c e h = ignored refl refl

  dispatch-Outcome : (cmd : Option Cmd) → p.m.cmd ≡ cmd → Done (dispatch co p cmd)
  unfolding dispatch
  dispatch-Outcome (some propose) c = on_propose-Outcome c
  dispatch-Outcome (some rsvp) c = on_rsvp-Outcome p.m.crnd p.m.vrnd c refl refl
  dispatch-Outcome (some tick) c = ticks c refl refl
  dispatch-Outcome _ c = ignored refl refl

  pub update-Outcome : Outcome co p (update co p).0 (update co p).1
  unfolding update
  update-Outcome = dispatch-Outcome p.m.cmd refl
