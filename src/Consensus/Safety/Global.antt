-- ===== src/Consensus/Safety/Global.antt =====
-- The invariant of a whole cluster, over what has been said and the three parts of every node.
use doozer.Common.{ℕ, ℤ, pos, ◌≤◌, ◌+◌, ◌*◌, true, Bytes, some, List, In, ◌≡◌, ◌≢◌, ap, arith}
use doozer.Consensus.Message.{
  M, nominate, vote, propose, learn, invite_msg, rsvp_msg, nominate_msg, vote_msg, learn_msg,
}
use doozer.Consensus.Coordinator.{Coordinator}
use doozer.Consensus.Acceptor.{Acceptor}
use doozer.Consensus.Learner.{Learner}
use doozer.Consensus.Safety.Grows.{Saying}
use doozer.Consensus.Safety.Promises.{Promises}
use doozer.Consensus.Safety.Ballots.{Ballots}
use doozer.Consensus.Safety.Tallies.{Tallies}

-- The five messages that nodes send.
pub data Form (q : ℤ) (m : M) : Type 0 where
  inviting : (i : ℤ) → m ≡ invite_msg (some q) i → Form q m
  answering : (i vr : ℤ) (v : Bytes) → m ≡ rsvp_msg (some q) i vr v → Form q m
  nominating : (i : ℤ) (v : Bytes) → m ≡ nominate_msg (some q) i v → Form q m
  voting : (i : ℤ) (v : Bytes) → m ≡ vote_msg (some q) i v → Form q m
  informing : (v : Bytes) → m ≡ learn_msg (some q) v → Form q m

module _ {q : ℤ} {m : M} where
  pub Form-seqn : Form q m → m.seqn ≡ some q
  Form-seqn (inviting i e) = ap (λ x. x.seqn) e
  Form-seqn (answering i vr v e) = ap (λ x. x.seqn) e
  Form-seqn (nominating i v e) = ap (λ x. x.seqn) e
  Form-seqn (voting i v e) = ap (λ x. x.seqn) e
  Form-seqn (informing v e) = ap (λ x. x.seqn) e

  pub Form-propose : Form q m → m.cmd ≢ some propose
  Form-propose (inviting i e) h = ground arith
  Form-propose (answering i vr v e) h = ground arith
  Form-propose (nominating i v e) h = ground arith
  Form-propose (voting i v e) h = ground arith
  Form-propose (informing v e) h = ground arith

  pub Form-vote :
      {i : ℤ} → Form q m → m.cmd ≡ some vote → m.vrnd ≡ some i → m ≡ vote_msg (some q) i m.value
  Form-vote (inviting i e) c h = ground arith
  Form-vote (answering i vr v e) c h = ground arith
  Form-vote (nominating i v e) c h = ground arith
  Form-vote (voting i v e) c h = ground arith
  Form-vote (informing v e) c h = ground arith

  pub Form-nominate :
      {i : ℤ}
      → Form q m
      → m.cmd ≡ some nominate
      → m.crnd ≡ some i
      → m ≡ nominate_msg (some q) i m.value
  Form-nominate (inviting i e) c h = ground arith
  Form-nominate (answering i vr v e) c h = ground arith
  Form-nominate (nominating i v e) c h = ground arith
  Form-nominate (voting i v e) c h = ground arith
  Form-nominate (informing v e) c h = ground arith

  pub Form-learn : Form q m → m.cmd ≡ some learn → m ≡ learn_msg (some q) m.value
  Form-learn (inviting i e) c = ground arith
  Form-learn (answering i vr v e) c = ground arith
  Form-learn (nominating i v e) c = ground arith
  Form-learn (voting i v e) c = ground arith
  Form-learn (informing v e) c = ground arith

-- The constants of a cluster: the position of the log, the size of a quorum, the nodes, the step
-- between the rounds of a node, its first round, and whether it is among the CALs.
pub record Setting : Type 1 where
  pub q : ℤ
  pub quorum : ℕ
  pub nodes : List Bytes
  pub size : ℕ
  pub first : Bytes → ℕ
  pub IsCal : Bytes → Type 0

-- The round of `c` after `k` ticks.
abbrev pub IsRound : (st : Setting) (c : Bytes) (k : ℕ) → ℤ → Type 0
IsRound st c k r = r ≡ pos (st.first c + k * st.size)

pub record Global (st : Setting) (steps : ℕ) (Said : Saying) (co : Bytes → Coordinator)
    (ac : Bytes → Acceptor) (ln : Bytes → Learner) : Type 0 where
  pub form : (a : Bytes) (m : M) → Said a m → Form st.q m
  pub member : (a : Bytes) (m : M) → Said a m → In a st.nodes
  pub promises : (a : Bytes) → Promises st.q Said a (ac a)
  pub ballots : (c : Bytes) → Ballots st.q st.quorum Said c (co c)
  pub tallies : (n : Bytes) → Tallies st.q st.quorum st.nodes Said n (ln n)
  pub nominated :
      (a : Bytes) (r : ℤ) (v : Bytes)
      → Said a (vote_msg (some st.q) r v)
      → (c : Bytes) × Said c (nominate_msg (some st.q) r v)
  pub size_eq : (c : Bytes) → (co c).size ≡ st.size
  pub rounds : (c : Bytes) → (k : ℕ) × IsRound st c k (co c).crnd × (k ≤ steps)
  pub owned :
      (c : Bytes) (r : ℤ) (v : Bytes)
      → Said c (nominate_msg (some st.q) r v)
      → (k : ℕ) × IsRound st c k r
  pub begun : (c : Bytes) → (co c).begun ≡ true → st.IsCal c
