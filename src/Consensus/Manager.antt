-- ===== src/Consensus/Manager.antt =====
-- src/pkg/consensus/manager.go: what the manager does with the packets of one position of the log.
pub mod Triggers
pub mod Loop
use doozer.Common.{ℤ, Option, none, some, Bytes, List, [], ◌∷◌, ◌≡◌, refl, ◌⊎◌, inl, inr}
use doozer.Consensus.Message.{Cmd, invite, M, Packet, learn_msg}
use doozer.Consensus.Run.{Datagram, Op, Env}

-- A datagram from the network becomes a packet, if it can be decoded and names a position.
with_seqn : Bytes → M → Option ℤ → Option Packet
with_seqn addr m none = none
with_seqn addr m (some q) = some (record { addr = addr; m = m })

decoded : Bytes → Option M → Option Packet
unfolding with_seqn
decoded addr none = none
decoded addr (some m) = with_seqn addr m m.seqn

unfoldable pub recv_packet : (Bytes → Option M) → Bytes → Bytes → Option Packet
unfolding decoded
recv_packet unmarshal addr payload = decoded addr (unmarshal payload)

with_seqn-cases :
    (addr : Bytes) (m : M) (seqn : Option ℤ)
    → (with_seqn addr m seqn ≡ none)
      ⊎ (with_seqn addr m seqn ≡ some (record { addr = addr; m = m }))
unfolding with_seqn
with_seqn-cases addr m none = inl refl
with_seqn-cases addr m (some q) = inr refl

-- What can be decoded is passed on as it was sent, or dropped.
pub recv_packet-cases :
    (unmarshal : Bytes → Option M) (addr payload : Bytes) (m : M)
    → unmarshal payload ≡ some m
    → (recv_packet unmarshal addr payload ≡ none)
      ⊎ (recv_packet unmarshal addr payload ≡ some (record { addr = addr; m = m }))
unfolding recv_packet
recv_packet-cases unmarshal addr payload m h = rw h (with_seqn-cases addr m m.seqn)

-- The answer for a position that has been learned. `waited` is what `st.Wait` gives: nothing if the
-- event has been cleaned away, else the position and the mutation of its event.
module _ (env : Env) where
  learn_reply : Packet → Option Cmd → Option Op → List Datagram
  learn_reply p (some invite) (some e) =
      record { addr = p.addr; payload = env.marshal (learn_msg (some e.seqn) e.mut) } ∷ []
  learn_reply p _ _ = []

  unfoldable pub send_learn : Packet → Option Op → List Datagram
  unfolding learn_reply
  send_learn p waited = learn_reply p p.m.cmd waited

  -- The manager answers an invitation with the value, and nothing else.
  learn_reply-cases :
      (p : Packet) (cmd : Option Cmd) (e : Op)
      → (learn_reply p cmd (some e) ≡ [])
        ⊎ (learn_reply p cmd (some e)
            ≡ record { addr = p.addr; payload = env.marshal (learn_msg (some e.seqn) e.mut) } ∷ [])
  unfolding learn_reply
  learn_reply-cases p (some invite) e = inr refl
  learn_reply-cases p _ e = inl refl

  pub send_learn-cases :
      (p : Packet) (e : Op)
      → (send_learn p (some e) ≡ [])
        ⊎ (send_learn p (some e)
            ≡ record { addr = p.addr; payload = env.marshal (learn_msg (some e.seqn) e.mut) } ∷ [])
  unfolding send_learn
  send_learn-cases p e = learn_reply-cases p p.m.cmd e
