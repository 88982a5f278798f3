-- ===== src/Consensus/Safety/LearnerStep.antt =====
-- A call of `Learner.update` at one node keeps the invariant of the cluster.
use doozer.Common.{
  ℕ, ℤ, ◌<◌, ◌^◌, true, Bytes, Option, some, In, length, ◌≡◌, ◌≢◌, ap, inl, inr, put, put-cases,
  arith,
}
use mathlib.Core.Option
use doozer.Consensus.Message.{M, Packet, vote, learn, vote_msg, learn_msg}
use doozer.Consensus.Run.{stamp}
use doozer.Consensus.Coordinator.{Coordinator}
use doozer.Consensus.Acceptor.{Acceptor}
use doozer.Consensus.Learner
use doozer.Consensus.Learner.{Learner, Learned}
use doozer.Consensus.Safety.Grows.{Saying, Grows}
use doozer.Consensus.Safety.Promises.{Promises-frame}
use doozer.Consensus.Safety.Ballots.{Ballots-frame}
use doozer.Consensus.Safety.Tallies.{Chosen, Tallies, Tallies-frame, Tallies-grown}
use doozer.Consensus.Safety.Outcomes.{Outcome-Tallies}
use doozer.Consensus.Safety.Global.{informing, Form-vote, Form-learn, Setting, Global}
use doozer.Consensus.Learner.{told, repeated, counted, won}
use doozer.Consensus.Safety.Invites.{Origin, Origin-said}

-- A learner sends nothing but the value.
Outcome-informs :
    {q : ℤ} {ln ln' : Learner} {p : Packet} {r : Learned} {m : M}
    → Learner.Outcome ln p ln' r
    → Option.map (stamp q) r.m ≡ some m
    → m ≡ learn_msg (some q) p.m.value
Outcome-informs (Learner.Outcome.ignored e o) h = ground arith
Outcome-informs (told d c e o) h = ground arith
Outcome-informs (repeated i base cs e o) h = ground arith
Outcome-informs (counted i base d c r cs f e o) h = ground arith
Outcome-informs (won i base d c r cs f en e o) h = ground arith

-- A node that says at most the value, of which the counts remain sound.
module _ {st : Setting} {steps : ℕ} {Said Said' : Saying} {co : Bytes → Coordinator}
    {ac : Bytes → Acceptor} {ln : Bytes → Learner} (G : Global st steps Said co ac ln) (n : Bytes)
    (member : In n st.nodes) {out : Option M} (value : Bytes)
    (informs : (m : M) → out ≡ some m → m ≡ learn_msg (some st.q) value)
    (g : Grows n out Said Said') {ln' : Bytes → Learner}
    (tallies : (a : Bytes) → Tallies st.q st.quorum st.nodes Said' a (ln' a)) where
  said_before : (a : Bytes) (m : M) → Said' a m → m.cmd ≢ some learn → Said a m
  said_before a m s nl = elim (g.fresh a m s) [
    | inl old ↦ old
    | inr (_, e) ↦ absurd (nl (ap (λ x. x.cmd) (informs m e)))
  ]

  pub inform_step : Global st steps Said' co ac ln'
  inform_step = record {
    form = λ a m s. elim (g.fresh a m s) [
      | inl old ↦ G.form a m old
      | inr (_, e) ↦ informing value (informs m e)
    ];
    member =
        λ a m s. elim (g.fresh a m s) [ inl old ↦ G.member a m old | inr (e, _) ↦ rw e member ];
    promises = λ a.
        Promises-frame (G.promises a) (g.keep a) (λ r v s. said_before a _ s (λ e. ground arith))
          (λ i vr v s. said_before a _ s (λ e. ground arith));
    ballots =
        λ c. Ballots-frame g.keep (G.ballots c) (λ r v s. said_before c _ s (λ e. ground arith));
    tallies = tallies;
    nominated = λ a r v s.
        let (c, nom) = G.nominated a r v (said_before a _ s (λ e. ground arith)) in
        (c, g.keep _ _ nom);
    size_eq = G.size_eq;
    rounds = G.rounds;
    owned = λ c r v s. G.owned c r v (said_before c _ s (λ e. ground arith));
    begun = G.begun;
  }

module _ {st : Setting} {steps : ℕ} {Said Said' : Saying} {co : Bytes → Coordinator}
    {ac : Bytes → Acceptor} {ln : Bytes → Learner} (G : Global st steps Said co ac ln)
    (few : length st.nodes < 2 ^ 63) (n : Bytes) (member : In n st.nodes) (p : Packet)
    {ln' : Learner} {r : Learned} (done : Learner.Outcome (ln n) p ln' r)
    (origin : Origin st Said n p) (g : Grows n (Option.map (stamp st.q) r.m) Said Said') where
  vote_heard :
      (i : ℤ)
      → p.m.cmd ≡ some vote
      → p.m.vrnd ≡ some i
      → Said p.addr (vote_msg (some st.q) i p.m.value)
  vote_heard i c h =
      let s = Origin-said origin c (λ e. ground arith) (λ e. ground arith) in
      rw (Form-vote (G.form p.addr p.m s) c h) at s

  value_heard : p.m.cmd ≡ some learn → Chosen st.q st.quorum st.nodes Said p.m.value
  value_heard c =
      let s = Origin-said origin c (λ e. ground arith) (λ e. ground arith) in
      (G.tallies p.addr).told p.m.value (rw (Form-learn (G.form p.addr p.m s) c) at s)

  voter_member : p.m.cmd ≡ some vote → In p.addr st.nodes
  voter_member c =
      G.member p.addr p.m (Origin-said origin c (λ e. ground arith) (λ e. ground arith))

  step-Tallies : (a : Bytes) → Tallies st.q st.quorum st.nodes Said' a (put ln n ln' a)
  step-Tallies =
      put-cases (Tallies st.q st.quorum st.nodes Said') ln n ln'
        (Outcome-Tallies p r few (G.tallies n) voter_member vote_heard value_heard g done)
        (λ a other. Tallies-frame g.keep (G.tallies a) λ v s.
          elim (g.fresh a (learn_msg (some st.q) v) s) [
            | inl old ↦ old
            | inr (e, _) ↦ absurd (other e)
          ])

  -- A call of `Learner.update` at one node keeps the invariant of the cluster.
  pub learner_step : Global st steps Said' co ac (put ln n ln')
  learner_step = inform_step G n member p.m.value (λ m e. Outcome-informs done e) g step-Tallies

-- A node that has learned may tell its value again.
module _ {st : Setting} {steps : ℕ} {Said Said' : Saying} {co : Bytes → Coordinator}
    {ac : Bytes → Acceptor} {ln : Bytes → Learner} (G : Global st steps Said co ac ln) (n : Bytes)
    (member : In n st.nodes) (learned : (ln n).done ≡ true)
    (g : Grows n (some (learn_msg (some st.q) (ln n).v)) Said Said') where
  relayed-told :
      (a v : Bytes) → Said' a (learn_msg (some st.q) v) → Chosen st.q st.quorum st.nodes Said v
  relayed-told a v s = elim (g.fresh a (learn_msg (some st.q) v) s) [
    | inl old ↦ (G.tallies a).told v old
    | inr (_, e) ↦ let same : v ≡ (ln n).v = ground arith in rw same ((G.tallies n).settled learned)
  ]

  relayed-Tallies : (a : Bytes) → Tallies st.q st.quorum st.nodes Said' a (ln a)
  relayed-Tallies a = Tallies-grown g.keep (G.tallies a) (relayed-told a)

  pub relay_step : Global st steps Said' co ac ln
  relay_step = inform_step G n member (ln n).v (λ m e. ground arith) g relayed-Tallies
