-- ===== src/Consensus/Safety/Invites.antt =====
-- Where packets come from, and what one call of `Coordinator.update` sends and changes.
use doozer.Common.{ℤ, true, Bytes, Option, some, [], ◌≡◌, ◌≢◌, sym, ap, ◌∙◌, ◌⊎◌, inl, inr, arith}
use mathlib.Core.Option
use doozer.Consensus.Message.{
  Cmd, M, Packet, invite, nominate, tick, propose, invite_msg, nominate_msg, propose_msg, tick_msg,
}
use doozer.Consensus.Run.{stamp}
use doozer.Consensus.Coordinator
use doozer.Consensus.Coordinator.{
  Coordinator, ignored, begins, hears, nominates, ticks, started, heard, choice, next_round,
}
use doozer.Consensus.Safety.Grows.{Saying}
use doozer.Consensus.Safety.Global.{Form, inviting, nominating, Form-seqn, Form-propose, Setting}

-- Where a packet comes from: another node, the proposer of a CAL, or a timer.
pub data Origin (st : Setting) (Said : Saying) (n : Bytes) (p : Packet) : Type 0 where
  network : Said p.addr p.m → Origin st Said n p
  proposal :
      (v : Bytes) → p.m ≡ propose_msg (some st.q) v → v ≢ [] → st.IsCal n → Origin st Said n p
  timer : p.m ≡ tick_msg (some st.q) → Origin st Said n p

-- What a coordinator sends.
pub data Invites (q : ℤ) (co : Coordinator) (m : M) : Type 0 where
  invites : (i : ℤ) → m ≡ invite_msg (some q) i → Invites q co m
  chooses : (v : Bytes) → m ≡ nominate_msg (some q) co.crnd v → Invites q co m

module _ {q : ℤ} {co co' : Coordinator} {p : Packet} {out : Option M} where
  pub Outcome-Invites :
      {m : M}
      → Coordinator.Outcome co p co' out
      → Option.map (stamp q) out ≡ some m
      → Invites q co m
  Outcome-Invites (ignored e o) h = ground arith
  Outcome-Invites (begins b c e o) h = invites co.crnd (ground arith)
  Outcome-Invites (hears vrnd b v c i r e o) h = ground arith
  Outcome-Invites (nominates vrnd co₁ b v c i r e n e' o) h = chooses (choice co₁) (ground arith)
  Outcome-Invites (ticks c e o) h = invites (next_round co).crnd (ground arith)

module _ {co co' : Coordinator} {p : Packet} {out : Option M} where
  pub Outcome-size : Coordinator.Outcome co p co' out → co'.size ≡ co.size
  Outcome-size (ignored e o) = ap (λ x. x.size) e
  Outcome-size (begins b c e o) = ap (λ x. x.size) e
  Outcome-size (hears vrnd b v c i r e o) = ap (λ x. x.size) e
  Outcome-size (nominates vrnd co₁ b v c i r e n e' o) = ground arith
  Outcome-size (ticks c e o) = ap (λ x. x.size) e

  pub Outcome-crnd :
      Coordinator.Outcome co p co' out → (co'.crnd ≡ co.crnd) ⊎ (co'.crnd ≡ (next_round co).crnd)
  Outcome-crnd (ignored e o) = inl (ap (λ x. x.crnd) e)
  Outcome-crnd (begins b c e o) = inl (ap (λ x. x.crnd) e)
  Outcome-crnd (hears vrnd b v c i r e o) = inl (ap (λ x. x.crnd) e)
  Outcome-crnd (nominates vrnd co₁ b v c i r e n e' o) = inl (ground arith)
  Outcome-crnd (ticks c e o) = inr (ap (λ x. x.crnd) e)

  pub Outcome-begun :
      Coordinator.Outcome co p co' out
      → co'.begun ≡ true
      → (co.begun ≡ true) ⊎ (p.m.cmd ≡ some propose)
  Outcome-begun (ignored e o) h = inl (sym (ap (λ x. x.begun) e) ∙ h)
  Outcome-begun (begins b c e o) h = inr c
  Outcome-begun (hears vrnd b v c i r e o) h = inl b
  Outcome-begun (nominates vrnd co₁ b v c i r e n e' o) h = inl b
  Outcome-begun (ticks c e o) h = inl (sym (ap (λ x. x.begun) e) ∙ h)

module _ {q : ℤ} {co : Coordinator} {m : M} where
  pub Invites-Form : Invites q co m → Form q m
  Invites-Form (invites i e) = inviting i e
  Invites-Form (chooses v e) = nominating co.crnd v e

  pub Invites-cmd : Invites q co m → (m.cmd ≡ some invite) ⊎ (m.cmd ≡ some nominate)
  Invites-cmd (invites i e) = inl (ap (λ x. x.cmd) e)
  Invites-cmd (chooses v e) = inr (ap (λ x. x.cmd) e)

module _ {st : Setting} {Said : Saying} {n : Bytes} {p : Packet} where
  pub Origin-seqn :
      ((a : Bytes) (m : M) → Said a m → Form st.q m) → Origin st Said n p → p.m.seqn ≡ some st.q
  Origin-seqn form (network s) = Form-seqn (form p.addr p.m s)
  Origin-seqn form (proposal v e h i) = ap (λ x. x.seqn) e
  Origin-seqn form (timer e) = ap (λ x. x.seqn) e

  -- A packet that is neither a proposal nor a tick has been said by its sender.
  pub Origin-said :
      {c : Cmd} → Origin st Said n p → p.m.cmd ≡ some c → c ≢ propose → c ≢ tick → Said p.addr p.m
  Origin-said (network s) h np nt = s
  Origin-said (proposal v e _ _) h np nt = absurd (np (ground arith))
  Origin-said (timer e) h np nt = absurd (nt (ground arith))

  pub Origin-proposal :
      ((a : Bytes) (m : M) → Said a m → Form st.q m)
      → Origin st Said n p
      → p.m.cmd ≡ some propose
      → (p.m.value ≢ []) × st.IsCal n
  Origin-proposal form (network s) h = absurd (Form-propose (form p.addr p.m s) h)
  Origin-proposal form (proposal v e h i) _ = (rw e h, i)
  Origin-proposal form (timer e) h = ground arith
