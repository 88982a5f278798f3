-- ===== src/Consensus/Safety/CoordinatorStep.antt =====
-- A call of `Coordinator.update` at one node keeps the invariant of the cluster.
use doozer.Common.{
  ℕ, suc, ℤ, pos, ◌+ℤ◌, +₆₄-eq-+ℤ, ◌<ℤ◌, ◌≤◌, ◌<◌, ◌+◌, ◌*◌, ◌^◌, parts_of_eq, true, Bytes, Option,
  some, [], In, ◌≡◌, ◌≢◌, ◌∙◌, inl, inr, put, put-cases, arith,
}
use mathlib.Core.Option
use doozer.Consensus.Message.{M, Packet, invite, nominate, rsvp_msg, nominate_msg}
use doozer.Consensus.Run.{stamp}
use doozer.Consensus.Coordinator
use doozer.Consensus.Coordinator.{
  Coordinator, ignored, begins, hears, nominates, ticks, started, heard, choice, next_round,
}
use doozer.Consensus.Acceptor.{Acceptor}
use doozer.Consensus.Learner.{Learner}
use doozer.Consensus.Safety.Grows.{Saying, Grows}
use doozer.Consensus.Safety.Promises.{Promises-frame}
use doozer.Consensus.Safety.Ballots.{Ballots, Ballots-frame}
use doozer.Consensus.Safety.Nominations.{Outcome-Ballots}
use doozer.Consensus.Safety.Tallies.{Tallies-frame}
use doozer.Consensus.Safety.Global.{Setting, IsRound, Global}
use doozer.Consensus.Safety.Invites.{
  Origin, Origin-seqn, Origin-said, Origin-proposal, invites, chooses, Invites-Form, Invites-cmd,
  Outcome-Invites, Outcome-size, Outcome-crnd, Outcome-begun,
}

module _ {st : Setting} {steps : ℕ} {Said Said' : Saying} {co : Bytes → Coordinator}
    {ac : Bytes → Acceptor} {ln : Bytes → Learner} (G : Global st steps Said co ac ln) (n : Bytes)
    (member : In n st.nodes) (p : Packet) {co' : Coordinator} {out : Option M}
    (done : Coordinator.Outcome (co n) p co' out) (origin : Origin st Said n p)
    (roomy : (c : Bytes) → st.first c + suc steps * st.size < 2 ^ 63) (room : 0 < st.size)
    (g : Grows n (Option.map (stamp st.q) out) Said Said') where
  said_before :
      (a : Bytes) (m : M) → Said' a m → m.cmd ≢ some invite → m.cmd ≢ some nominate → Said a m
  said_before a m s ni nn = elim (g.fresh a m s) [
    | inl old ↦ old
    | inr (_, e) ↦ elim (Invites-cmd (Outcome-Invites done e)) [
      | inl h ↦ absurd (ni h)
      | inr h ↦ absurd (nn h)
    ]
  ]

  next-crnd :
      (k : ℕ)
      → IsRound st n k (co n).crnd
      → k ≤ steps
      → IsRound st n (suc k) (next_round (co n)).crnd
  unfolding ◌+ℤ◌
  next-crnd k h le =
      rw (h, G.size_eq n)
        (+₆₄-eq-+ℤ (pos (st.first n + k * st.size)) (pos st.size) (grind (arith, roomy n))
          ∙ ground arith)

  step-rounds : (c : Bytes) → (k : ℕ) × IsRound st c k (put co n co' c).crnd × (k ≤ suc steps)
  step-rounds =
      put-cases (λ c x. (k : ℕ) × IsRound st c k x.crnd × (k ≤ suc steps)) co n co' own others
    where
      others : (c : Bytes) → c ≢ n → (k : ℕ) × IsRound st c k (co c).crnd × (k ≤ suc steps)
      others c _ = let (k, e, le) = G.rounds c in (k, e, omega arith)

      own : (k : ℕ) × IsRound st n k co'.crnd × (k ≤ suc steps)
      own =
          let (k, e, le) = G.rounds n in
          elim (Outcome-crnd done) [
            | inl same ↦ (k, same ∙ e, omega arith)
            | inr next ↦ (suc k, next ∙ next-crnd k e le, omega arith)
          ]

  step-owned :
      (c : Bytes) (r : ℤ) (v : Bytes)
      → Said' c (nominate_msg (some st.q) r v)
      → (k : ℕ) × IsRound st c k r
  step-owned c r v s = elim (g.fresh c (nominate_msg (some st.q) r v) s) [
    | inl old ↦ G.owned c r v old
    | inr (e, o) ↦ elim (Outcome-Invites done o) [
      | invites i h ↦ ground arith
      | chooses w h ↦
          let (k, e', _) = G.rounds n in
          let same : r ≡ (co n).crnd = ground arith in (k, rw e (same ∙ e'))
    ]
  ]

  step-begun : (c : Bytes) → (put co n co' c).begun ≡ true → st.IsCal c
  step-begun =
      put-cases (λ c x. x.begun ≡ true → st.IsCal c) co n co'
        (λ h. elim (Outcome-begun done h) [
          | inl b ↦ G.begun n b
          | inr c ↦ (Origin-proposal G.form origin c).1
        ])
        (λ c _. G.begun c)

  reported :
      (a : Bytes) (i vr : ℤ) (v : Bytes)
      → Said a (rsvp_msg (some st.q) i vr v)
      → pos 0 <ℤ vr
      → v ≢ []
  reported a i vr v s up =
      let (c, nom) = G.nominated a vr v ((G.promises a).backed i vr v s up) in
      (G.ballots c).nonempty vr v nom

  ticks_up : (co n).crnd <ℤ (next_round (co n)).crnd
  ticks_up =
      let (k, e, le) = G.rounds n in
      omega (arith, parts_of_eq e, parts_of_eq (next-crnd k e le), room)

  step-Ballots : (c : Bytes) → Ballots st.q st.quorum Said' c (put co n co' c)
  step-Ballots =
      put-cases (Ballots st.q st.quorum Said') co n co'
        (Outcome-Ballots done (G.ballots n) (Origin-seqn G.form origin)
          (λ c. Origin-said origin c (λ e. ground arith) (λ e. ground arith))
          (λ c. (Origin-proposal G.form origin c).0) reported (λ _. ticks_up) g)
        (λ c other. Ballots-frame g.keep (G.ballots c) λ r v s.
          elim (g.fresh c (nominate_msg (some st.q) r v) s) [
            | inl old ↦ old
            | inr (e, _) ↦ absurd (other e)
          ])

  -- A call of `Coordinator.update` at one node keeps the invariant of the cluster.
  pub coordinator_step : Global st (suc steps) Said' (put co n co') ac ln
  coordinator_step = record {
    form = λ a m s. elim (g.fresh a m s) [
      | inl old ↦ G.form a m old
      | inr (_, e) ↦ Invites-Form (Outcome-Invites done e)
    ];
    member =
        λ a m s. elim (g.fresh a m s) [ inl old ↦ G.member a m old | inr (e, _) ↦ rw e member ];
    promises = λ a.
        Promises-frame (G.promises a) (g.keep a)
          (λ r v s. said_before a _ s (λ e. ground arith) (λ e. ground arith))
          (λ i vr v s. said_before a _ s (λ e. ground arith) (λ e. ground arith));
    ballots = step-Ballots;
    tallies = λ a.
        Tallies-frame g.keep (G.tallies a)
          (λ v s. said_before a _ s (λ e. ground arith) (λ e. ground arith));
    nominated = λ a r v s.
        let (c, nom) =
          G.nominated a r v (said_before a _ s (λ e. ground arith) (λ e. ground arith)) in
        (c, g.keep _ _ nom);
    size_eq =
        put-cases (λ c x. x.size ≡ st.size) co n co' (Outcome-size done ∙ G.size_eq n)
          (λ c _. G.size_eq c);
    rounds = step-rounds;
    owned = step-owned;
    begun = step-begun;
  }
