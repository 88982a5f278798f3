-- ===== src/Consensus/Safety/Reach.antt =====
-- Handling one packet keeps the invariant of the cluster.
use doozer.Common.{
  ℕ, suc, bytes_eq, pos_part, ◌/◌, map, ◌++◌, Bool-cases, fun_ext, ◌<◌, ◌+◌, ◌*◌, ◌^◌, true, false,
  false≢true, Bytes, Option, List, In, length, if_cases, ◌≡◌, refl, sym, ◌∙◌, inl, inr, put, arith,
}
use mathlib.Core.Option
use doozer.Consensus.Message.{M, Packet}
use doozer.Consensus.Run.{stamp}
use doozer.Consensus.Coordinator
use doozer.Consensus.Coordinator.{
  Coordinator, ignored, begins, hears, nominates, ticks, started, heard, choice, next_round,
}
use doozer.Consensus.Acceptor
use doozer.Consensus.Acceptor.{Acceptor}
use doozer.Consensus.Learner
use doozer.Consensus.Learner.{Learner, Learned}
use doozer.Consensus.Safety.Grows.{Saying, Grows}
use doozer.Consensus.Safety.Global.{Setting, Global}
use doozer.Consensus.Run
use doozer.Consensus.Run.{Datagram, Op, Env, Run, broadcast}
use doozer.Consensus.System.{Cluster, cluster_seqn, start_run, System, Sent}
use doozer.Consensus.Safety.CoordinatorStep.{coordinator_step}
use doozer.Consensus.Safety.AcceptorStep.{acceptor_step}
use doozer.Consensus.Safety.LearnerStep.{learner_step}
use doozer.Consensus.Safety.Invites.{Origin, network, proposal, timer}
use doozer.Consensus.Safety.Carries.{SaidIn, tagged, broadcast-Grows}

pub Origin-mono :
    {st : Setting} {Said Said' : Saying} {n : Bytes} {p : Packet}
    → ((a : Bytes) (m : M) → Said a m → Said' a m)
    → Origin st Said n p
    → Origin st Said' n p
Origin-mono keep (network s) = network (keep _ _ s)
Origin-mono keep (proposal v e h i) = proposal v e h i
Origin-mono keep (timer e) = timer e

-- A field of a family that changes at one place.
pub put-map {ℓ κ} :
    {A : Type ℓ} {B : Type κ} (f : A → B) (g : Bytes → A) (n : Bytes) (x : A)
    → (λ a. f (put g n x a)) ≡ put (λ a. f (g a)) n (f x)
put-map f g n x = fun_ext λ a. elim (Bool-cases (bytes_eq n a)) [ inl e ↦ rw e | inr e ↦ rw e ]

-- A live run: the three parts act in turn on the same packet.
pub update-active :
    (env : Env) (r : Run) (p : Packet)
    → r.l.done ≡ false
    → ((Run.update env r p).run.c ≡ (Coordinator.update r.c p).0)
      × ((Run.update env r p).run.a ≡ (Acceptor.update r.a p.m).0)
      × ((Run.update env r p).run.l ≡ (Learner.update r.l p).0)
      × ((Run.update env r p).out
          ≡ broadcast env r (Coordinator.update r.c p).1
            ++ (broadcast env r (Acceptor.update r.a p.m).1
                ++ broadcast env r (Learner.update r.l p).1.m))
unfolding Run.update
update-active env r p live =
    if_cases
      (λ (e : Run.Effects env).
        (e.run.c ≡ (Coordinator.update r.c p).0)
        × (e.run.a ≡ (Acceptor.update r.a p.m).0)
        × (e.run.l ≡ (Learner.update r.l p).0)
        × (e.out
            ≡ broadcast env r (Coordinator.update r.c p).1
              ++ (broadcast env r (Acceptor.update r.a p.m).1
                  ++ broadcast env r (Learner.update r.l p).1.m)))
      r.l.done (λ t. absurd (false≢true (sym live ∙ t))) (λ _. (refl, refl, refl, refl))

pub update-constants :
    (env : Env) (r : Run) (p : Packet)
    → ((Run.update env r p).run.seqn ≡ r.seqn) × ((Run.update env r p).run.addrs ≡ r.addrs)
unfolding Run.update
update-constants env r p = elim (Bool-cases r.l.done) [
  | inl e ↦ simp e (refl, refl)
  | inr e ↦ simp e (refl, refl)
]

-- The constants of the invariant, for a cluster.
abbrev pub setting : Cluster → Setting
setting cl = record {
  q = cluster_seqn cl;
  quorum = length cl.cals / 2 + 1;
  nodes = cl.nodes;
  size = length cl.cals;
  first = λ n. pos_part (start_run cl n).c.crnd;
  IsCal = λ n. In (cl.name n) cl.cals;
}

abbrev pub GlobalOf : Env → Cluster → ℕ → (Bytes → Run) → List Sent → Type 0
GlobalOf env cl steps runs sent =
    Global (setting cl) steps (SaidIn env sent) (λ a. (runs a).c) (λ a. (runs a).a)
      (λ a. (runs a).l)

pub record Inv (env : Env) (cl : Cluster) (steps : ℕ) (s : System) : Type 0 where
  pub global : GlobalOf env cl steps s.runs s.sent
  pub seqn_eq : (a : Bytes) → (s.runs a).seqn ≡ cluster_seqn cl
  pub addrs_eq : (a : Bytes) → (s.runs a).addrs ≡ map (λ a. (a, true)) cl.nodes
  pub genuine : (d : Sent) → In d s.sent → (m : M) × (d.datagram.payload ≡ env.marshal m)

pub Global-later :
    {st : Setting} {steps : ℕ} {Said : Saying} {co : Bytes → Coordinator} {ac : Bytes → Acceptor}
    {ln : Bytes → Learner}
    → Global st steps Said co ac ln
    → Global st (suc steps) Said co ac ln
Global-later G = record {
  form = G.form;
  member = G.member;
  promises = G.promises;
  ballots = G.ballots;
  tallies = G.tallies;
  nominated = G.nominated;
  size_eq = G.size_eq;
  rounds = λ c. let (k, e, le) = G.rounds c in (k, e, omega arith);
  owned = G.owned;
  begun = G.begun;
}

module _ (env : Env) (cl : Cluster)
    (injective : (m m' : M) → env.marshal m ≡ env.marshal m' → m ≡ m')
    (few : length cl.nodes < 2 ^ 63) (some_cal : 0 < length cl.cals) {steps : ℕ} {s : System}
    (inv : Inv env cl steps s) (n : Bytes) (member : In n cl.nodes) (p : Packet)
    (origin : Origin (setting cl) (SaidIn env s.sent) n p)
    (roomy : (c : Bytes) → (setting cl).first c + suc steps * length cl.cals < 2 ^ 63) where
  abbrev pub r : Run
  r = s.runs n

  abbrev pub grown_by : List Sent → Option M → List Sent
  grown_by sent out = sent ++ tagged n (broadcast env r out)

  pub broadcast_one-Grows :
      (sent : List Sent) (out : Option M)
      → Grows n
          (Option.map (stamp (cluster_seqn cl)) out)
          (SaidIn env sent)
          (SaidIn env (grown_by sent out))
  broadcast_one-Grows sent out =
      rw (← inv.seqn_eq n) (broadcast-Grows env injective n sent member r (inv.addrs_eq n) out)

  abbrev pub m₁ : Option M
  m₁ = (Coordinator.update r.c p).1

  abbrev pub m₂ : Option M
  m₂ = (Acceptor.update r.a p.m).1

  abbrev pub m₃ : Option M
  m₃ = (Learner.update r.l p).1.m

  pub three_steps :
      Global
        (setting cl)
        (suc steps)
        (SaidIn env (grown_by (grown_by (grown_by s.sent m₁) m₂) m₃))
        (put (λ a. (s.runs a).c) n (Coordinator.update r.c p).0)
        (put (λ a. (s.runs a).a) n (Acceptor.update r.a p.m).0)
        (put (λ a. (s.runs a).l) n (Learner.update r.l p).0)
  three_steps =
      let g₁ = broadcast_one-Grows s.sent m₁ in
      let g₂ = broadcast_one-Grows (grown_by s.sent m₁) m₂ in
      let g₃ = broadcast_one-Grows (grown_by (grown_by s.sent m₁) m₂) m₃ in
      let o₁ = Origin-mono g₁.keep origin in
      let o₂ = Origin-mono g₂.keep o₁ in
      let G₁ =
        coordinator_step inv.global n member p (Coordinator.update-Outcome r.c p) origin roomy
          some_cal g₁ in
      let G₂ = acceptor_step G₁ n member p (Acceptor.update-Outcome r.a p.m) o₁ g₂ in
      learner_step G₂ few n member p (Learner.update-Outcome r.l p) o₂ g₃
