-- ===== src/Consensus/Safety/Handle.antt =====
-- `handle` keeps the invariant: a live run acts, a run that has learned answers invitations.
use doozer.Common.{
  ℕ, suc, In-cons, map, ◌∷◌, ◌++◌, append_assoc, map-append, In-append, In-map_inv, ◌<◌, ◌+◌, ◌*◌,
  ◌^◌, true, false, Bytes, Option, some, List, [], In, length, if_cases, ◌≡◌, ap, ◌∙◌, inl, inr,
  put, put-cases,
}
use doozer.Consensus.Message.{M, Packet, learn_msg}
use doozer.Consensus.Run.{stamp}
use doozer.Consensus.Coordinator
use doozer.Consensus.Coordinator.{
  Coordinator, ignored, begins, hears, nominates, ticks, started, heard, choice, next_round,
}
use doozer.Consensus.Acceptor
use doozer.Consensus.Acceptor.{Acceptor}
use doozer.Consensus.Learner
use doozer.Consensus.Learner.{Learner, Learned}
use doozer.Consensus.Safety.Tallies.{Tallies-frame}
use doozer.Consensus.Run
use doozer.Consensus.Run.{Datagram, Op, Env, Run, broadcast}
use doozer.Consensus.Manager.{send_learn, send_learn-cases}
use doozer.Consensus.System.{Cluster, cluster_seqn, System, Sent, handle}
use doozer.Consensus.Safety.LearnerStep.{inform_step, relay_step}
use doozer.Consensus.Safety.Invites.{Origin}
use doozer.Consensus.Safety.Carries.{SaidIn, tagged, carry-Grows, silent-Grows}
use doozer.Consensus.Safety.Carries.{broadcast-genuine}
use doozer.Consensus.Safety.Reach.{
  setting, GlobalOf, Inv, Global-later, three_steps, put-map, update-active, update-constants,
}

module _ (env : Env) (cl : Cluster)
    (injective : (m m' : M) → env.marshal m ≡ env.marshal m' → m ≡ m')
    (few : length cl.nodes < 2 ^ 63) (some_cal : 0 < length cl.cals) {steps : ℕ} {s : System}
    (inv : Inv env cl steps s) (n : Bytes) (member : In n cl.nodes) (p : Packet)
    (origin : Origin (setting cl) (SaidIn env s.sent) n p)
    (roomy : (c : Bytes) → (setting cl).first c + suc steps * length cl.cals < 2 ^ 63) where
  abbrev run : Run
  run = s.runs n

  abbrev one : List Datagram
  one = broadcast env run (Coordinator.update run.c p).1

  abbrev two : List Datagram
  two = broadcast env run (Acceptor.update run.a p.m).1

  abbrev three : List Datagram
  three = broadcast env run (Learner.update run.l p).1.m

  sent-append :
      s.sent ++ tagged n (one ++ (two ++ three))
      ≡ ((s.sent ++ tagged n one) ++ tagged n two) ++ tagged n three
  sent-append = simp (map-append, append_assoc)

  live_global :
      run.l.done ≡ false
      → GlobalOf env cl
          (suc steps)
          (put s.runs n (Run.update env run p).run)
          (s.sent ++ tagged n (Run.update env run p).out)
  live_global live =
      let (ec, ea, el, eo) = update-active env run p live in
      rw
        (
          put-map (λ (x : Run). x.c) s.runs n (Run.update env run p).run,
          put-map (λ (x : Run). x.a) s.runs n (Run.update env run p).run,
          put-map (λ (x : Run). x.l) s.runs n (Run.update env run p).run,
          ec,
          ea,
          el,
          eo,
          sent-append,
        )
        (three_steps env cl injective few some_cal inv n member p origin roomy)

  live-genuine :
      run.l.done ≡ false
      → (d : Sent) → In d (s.sent ++ tagged n (Run.update env run p).out)
      → (m : M) × (d.datagram.payload ≡ env.marshal m)
  live-genuine live d i = elim (In-append s.sent i) [
    | inl old ↦ inv.genuine d old
    | inr new ↦
        let (x, j, e) = In-map_inv (λ d. record { from = n; datagram = d }) _ new in
        let (m, h) = from_parts x (rw (update-active env run p live).3 at j) in
        (m, ap (λ x. x.datagram.payload) e ∙ h)
  ]
    where
      from_parts :
          (x : Datagram) → In x (one ++ (two ++ three)) → (m : M) × (x.payload ≡ env.marshal m)
      from_parts x j = elim (In-append one j) [
        | inl a ↦ broadcast-genuine env run _ x a
        | inr k ↦ elim (In-append two k) [
          | inl b ↦ broadcast-genuine env run _ x b
          | inr c ↦ broadcast-genuine env run _ x c
        ]
      ]

  live-Inv :
      run.l.done ≡ false
      → Inv env cl (suc steps) (record {
        runs = put s.runs n (Run.update env run p).run;
        sent = s.sent ++ tagged n (Run.update env run p).out;
      })
  live-Inv live =
      let (es, ea) = update-constants env run p in
      record {
        global = live_global live;
        seqn_eq =
            put-cases (λ _ x. x.seqn ≡ cluster_seqn cl) s.runs n _ (es ∙ inv.seqn_eq n)
              (λ a _. inv.seqn_eq a);
        addrs_eq =
            put-cases (λ _ x. x.addrs ≡ map (λ a. (a, true)) cl.nodes) s.runs n _
              (ea ∙ inv.addrs_eq n) (λ a _. inv.addrs_eq a);
        genuine = live-genuine live;
      }

  abbrev reply : Datagram
  reply = record { addr = p.addr; payload = env.marshal (learn_msg (some run.seqn) run.l.v) }

  quiet_global : GlobalOf env cl steps s.runs (s.sent ++ tagged n [])
  quiet_global =
      let g = silent-Grows env injective n s.sent in
      inform_step inv.global n member [] (λ m e. cc) g
        (λ a. Tallies-frame g.keep (inv.global.tallies a) λ v i.
          elim (g.fresh a (learn_msg (some (cluster_seqn cl)) v) i) [
            | inl old ↦ old
            | inr (_, e) ↦ cc
          ])

  reply_global : run.l.done ≡ true → GlobalOf env cl steps s.runs (s.sent ++ tagged n (reply ∷ []))
  reply_global learned = relay_step inv.global n member learned (
      carry-Grows env injective n s.sent (learn_msg (some (cluster_seqn cl)) run.l.v) (reply ∷ [])
        only reply In.here)
    where
      only :
          (d : Datagram)
          → In d (reply ∷ [])
          → d.payload ≡ env.marshal (learn_msg (some (cluster_seqn cl)) run.l.v)
      only d i = elim (In-cons i) [
        | inl e ↦
            ap (λ x. x.payload) e
            ∙ ap (λ q. env.marshal (learn_msg (some q) run.l.v)) (inv.seqn_eq n)
        | inr j ↦ elim j [ ]
      ]

  resting-Inv :
      (ds : List Datagram)
      → GlobalOf env cl steps s.runs (s.sent ++ tagged n ds)
      → ((d : Datagram) → In d ds → (m : M) × (d.payload ≡ env.marshal m))
      → Inv env cl (suc steps) (record s { sent = s.sent ++ tagged n ds })
  resting-Inv ds G gen = record {
    global = Global-later G;
    seqn_eq = inv.seqn_eq;
    addrs_eq = inv.addrs_eq;
    genuine = λ d i. elim (In-append s.sent i) [
      | inl old ↦ inv.genuine d old
      | inr new ↦
          let (x, j, e) = In-map_inv (λ d. record { from = n; datagram = d }) ds new in
          let (m, h) = gen x j in (m, ap (λ x. x.datagram.payload) e ∙ h)
    ];
  }

  learned-Inv :
      run.l.done ≡ true
      → Inv env cl (suc steps) (record s {
        sent =
            s.sent
            ++ tagged n (send_learn env p (some (record { seqn = run.seqn; mut = run.l.v })));
      })
  learned-Inv learned = elim (send_learn-cases env p (record { seqn = run.seqn; mut = run.l.v })) [
    | inl e ↦ rw e (resting-Inv [] quiet_global (λ d i. elim i [ ]))
    | inr e ↦ rw e (
        resting-Inv (reply ∷ []) (reply_global learned) (λ d i. elim (In-cons i) [
          | inl e ↦ (learn_msg (some run.seqn) run.l.v, ap (λ x. x.payload) e)
          | inr j ↦ elim j [ ]
        ]))
  ]

  pub handle-Inv :
      (unmarshal : Bytes → Option M) → Inv env cl (suc steps) (handle env unmarshal cl s n p)
  unfolding handle
  handle-Inv unmarshal = if_cases (Inv env cl (suc steps)) run.l.done learned-Inv live-Inv
