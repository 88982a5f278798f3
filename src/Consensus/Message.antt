-- ===== src/Consensus/Message.antt =====
-- The message M of src/pkg/consensus/consensus.proto, and the commands of src/pkg/consensus/m.go.
use doozer.Common.{ℤ, Bytes, Option, none, some, []}

pub data Cmd : Type 0 where
  nop invite rsvp nominate vote tick propose learn : Cmd

-- Every field is optional. A missing value and an empty one are both read as the empty string.
pub record M : Type 0 where
  pub cmd : Option Cmd
  pub seqn : Option ℤ
  pub crnd : Option ℤ
  pub vrnd : Option ℤ
  pub value : Bytes

-- A message with the address that it came from; a message that a node sends itself has none.
pub record Packet : Type 0 where
  pub addr : Bytes
  pub m : M

-- The messages that the components build, and the two that the manager makes for its own node.
module _ (seqn : Option ℤ) where
  abbrev pub invite_msg : ℤ → M
  invite_msg i = record { cmd = some invite; seqn = seqn; crnd = some i; vrnd = none; value = [] }

  abbrev pub rsvp_msg : ℤ → ℤ → Bytes → M
  rsvp_msg i vr v = record {
    cmd = some rsvp;
    seqn = seqn;
    crnd = some i;
    vrnd = some vr;
    value = v;
  }

  abbrev pub nominate_msg : ℤ → Bytes → M
  nominate_msg i v = record {
    cmd = some nominate;
    seqn = seqn;
    crnd = some i;
    vrnd = none;
    value = v;
  }

  abbrev pub vote_msg : ℤ → Bytes → M
  vote_msg i v = record { cmd = some vote; seqn = seqn; crnd = none; vrnd = some i; value = v }

  abbrev pub learn_msg : Bytes → M
  learn_msg v = record { cmd = some learn; seqn = seqn; crnd = none; vrnd = none; value = v }

  abbrev pub propose_msg : Bytes → M
  propose_msg v = record { cmd = some propose; seqn = seqn; crnd = none; vrnd = none; value = v }

  abbrev pub tick_msg : M
  tick_msg = record { cmd = some tick; seqn = seqn; crnd = none; vrnd = none; value = [] }
