-- ===== src/Consensus/Safety/AcceptorStep.antt =====
-- A call of `Acceptor.update` at one node keeps the invariant of the cluster.
use doozer.Common.{
  ℕ, ℤ, Bytes, Option, some, In, ◌≡◌, ◌≢◌, ap, ◌⊎◌, inl, inr, put, put-cases, arith,
}
use mathlib.Core.Option
use doozer.Consensus.Message.{M, Packet, rsvp, nominate, vote, rsvp_msg, nominate_msg, vote_msg}
use doozer.Consensus.Run.{stamp}
use doozer.Consensus.Coordinator.{Coordinator}
use doozer.Consensus.Acceptor
use doozer.Consensus.Acceptor.{Acceptor}
use doozer.Consensus.Learner.{Learner}
use doozer.Consensus.Safety.Grows.{Saying, Grows}
use doozer.Consensus.Safety.Promises.{Promises, Promises-frame, Outcome-Promises}
use doozer.Consensus.Safety.Ballots.{Ballots-frame}
use doozer.Consensus.Safety.Tallies.{Tallies-frame}
use doozer.Consensus.Safety.Global.{Form, answering, voting, Form-nominate, Setting, Global}
use doozer.Consensus.Acceptor.{promised, voted}
use doozer.Consensus.Safety.Invites.{Origin, Origin-said}

-- What an acceptor sends.
data Answers (q : ℤ) (m : M) (reply : M) : Type 0 where
  answers : (i vr : ℤ) (v : Bytes) → reply ≡ rsvp_msg (some q) i vr v → Answers q m reply
  votes :
      (i : ℤ)
      → m.cmd ≡ some nominate
      → m.crnd ≡ some i
      → reply ≡ vote_msg (some q) i m.value
      → Answers q m reply

module _ {q : ℤ} {m reply : M} where
  Outcome-Answers :
      {ac ac' : Acceptor} {out : Option M}
      → Acceptor.Outcome ac m ac' out
      → Option.map (stamp q) out ≡ some reply
      → Answers q m reply
  Outcome-Answers (Acceptor.Outcome.ignored e o) h = ground arith
  Outcome-Answers {ac} (promised i c r lt e o) h = answers i ac.vrnd ac.vval (ground arith)
  Outcome-Answers (voted i c r le ne e o) h = votes i c r (ground arith)

  Answers-Form : Answers q m reply → Form q reply
  Answers-Form (answers i vr v e) = answering i vr v e
  Answers-Form (votes i c r e) = voting i m.value e

  Answers-cmd : Answers q m reply → (reply.cmd ≡ some rsvp) ⊎ (reply.cmd ≡ some vote)
  Answers-cmd (answers i vr v e) = inl (ap (λ x. x.cmd) e)
  Answers-cmd (votes i c r e) = inr (ap (λ x. x.cmd) e)

module _ {st : Setting} {steps : ℕ} {Said Said' : Saying} {co : Bytes → Coordinator}
    {ac : Bytes → Acceptor} {ln : Bytes → Learner} (G : Global st steps Said co ac ln) (n : Bytes)
    (member : In n st.nodes) (p : Packet) {ac' : Acceptor} {out : Option M}
    (done : Acceptor.Outcome (ac n) p.m ac' out) (origin : Origin st Said n p)
    (g : Grows n (Option.map (stamp st.q) out) Said Said') where
  said_before : (a : Bytes) (m : M) → Said' a m → m.cmd ≢ some rsvp → m.cmd ≢ some vote → Said a m
  said_before a m s nr nv = elim (g.fresh a m s) [
    | inl old ↦ old
    | inr (_, e) ↦ elim (Answers-cmd (Outcome-Answers done e)) [
      | inl h ↦ absurd (nr h)
      | inr h ↦ absurd (nv h)
    ]
  ]

  nomination_before :
      (c : Bytes) (r : ℤ) (v : Bytes)
      → Said' c (nominate_msg (some st.q) r v)
      → Said c (nominate_msg (some st.q) r v)
  nomination_before c r v s = said_before c _ s (λ e. ground arith) (λ e. ground arith)

  step-Promises : (a : Bytes) → Promises st.q Said' a (put ac n ac' a)
  step-Promises =
      put-cases (Promises st.q Said') ac n ac' (Outcome-Promises done (G.promises n) g) (λ a other.
        Promises-frame (G.promises a) (g.keep a) (λ r v s. elsewhere a other _ s)
          (λ i vr v s. elsewhere a other _ s))
    where
      elsewhere : (a : Bytes) → a ≢ n → (m : M) → Said' a m → Said a m
      elsewhere a other m s = elim (g.fresh a m s) [ inl old ↦ old | inr (e, _) ↦ absurd (other e) ]

  -- The nomination that a new vote answers.
  nomination_heard :
      (i : ℤ)
      → p.m.cmd ≡ some nominate
      → p.m.crnd ≡ some i
      → Said p.addr (nominate_msg (some st.q) i p.m.value)
  nomination_heard i c h =
      let s = Origin-said origin c (λ e. ground arith) (λ e. ground arith) in
      rw (Form-nominate (G.form p.addr p.m s) c h) at s

  step-nominated :
      (a : Bytes) (r : ℤ) (v : Bytes)
      → Said' a (vote_msg (some st.q) r v)
      → (c : Bytes) × Said' c (nominate_msg (some st.q) r v)
  step-nominated a r v s = elim (g.fresh a (vote_msg (some st.q) r v) s) [
    | inl old ↦ let (c, nom) = G.nominated a r v old in (c, g.keep _ _ nom)
    | inr (_, o) ↦ elim (Outcome-Answers done o) [
      | answers i vr w h ↦ ground arith
      | votes i c h e ↦
          let er : r ≡ i = ground arith in
          let ev : v ≡ p.m.value = ground arith in
          (p.addr, rw (er, ev) (g.keep _ _ (nomination_heard i c h)))
    ]
  ]

  -- A call of `Acceptor.update` at one node keeps the invariant of the cluster.
  pub acceptor_step : Global st steps Said' co (put ac n ac') ln
  acceptor_step = record {
    form = λ a m s. elim (g.fresh a m s) [
      | inl old ↦ G.form a m old
      | inr (_, e) ↦ Answers-Form (Outcome-Answers done e)
    ];
    member =
        λ a m s. elim (g.fresh a m s) [ inl old ↦ G.member a m old | inr (e, _) ↦ rw e member ];
    promises = step-Promises;
    ballots = λ c. Ballots-frame g.keep (G.ballots c) (nomination_before c);
    tallies = λ a.
        Tallies-frame g.keep (G.tallies a)
          (λ v s. said_before a _ s (λ e. ground arith) (λ e. ground arith));
    nominated = step-nominated;
    size_eq = G.size_eq;
    rounds = G.rounds;
    owned = λ c r v s. G.owned c r v (nomination_before c r v s);
    begun = G.begun;
  }
