-- ===== src/Consensus/Safety/Schedules.antt =====
-- The invariant under a schedule.
use doozer.Common.{
  ℕ, suc, ◌≤◌, ◌<◌, ◌+◌, ◌*◌, ◌^◌, Bytes, dec_in, Option, none, some, List, [], ◌∷◌, In, get_elem?,
  get_elem?-In, length, All, if_cases, ◌≡◌, ◌≢◌, refl, sym, ap, subst, ◌∙◌, inl, inr, arith,
}
use doozer.Consensus.Message.{M, Packet}
use doozer.Consensus.Run.{Env}
use doozer.Consensus.Manager.{recv_packet-cases}
use doozer.Consensus.System.{
  Cluster, cluster_seqn, System, Sent, Event, deliver, propose, tick, handle, receive, deliver_sent,
  step, run_events, for_seqn,
}
use doozer.Consensus.Safety.Invites.{Origin, network, proposal, timer}
use doozer.Consensus.Safety.Carries.{SaidIn}
use doozer.Consensus.Safety.Reach.{setting, Inv, Global-later}
use doozer.Consensus.Safety.Handle.{handle-Inv}
use doozer.Consensus.Safety.Start.{start_round}

-- What the schedule may ask for: proposals are not empty, and are made by CALs.
abbrev pub IsAllowed : Cluster → Event → Type 0
IsAllowed cl (propose n v) = (v ≢ []) × In (cl.name n) cl.cals
IsAllowed cl (deliver k) = Unit
IsAllowed cl (tick n) = Unit

module _ (env : Env) (unmarshal : Bytes → Option M)
    (roundtrip : (m : M) → unmarshal (env.marshal m) ≡ some m) (cl : Cluster)
    (some_cal : 0 < length cl.cals) (few : length cl.nodes < 2 ^ 63) where
  injective : (m m' : M) → env.marshal m ≡ env.marshal m' → m ≡ m'
  injective m m' e = some-eq (sym (roundtrip m) ∙ (ap unmarshal e ∙ roundtrip m'))
    where
      some-eq : some m ≡ some m' → m ≡ m'
      some-eq h = cc

  Inv-later : {steps : ℕ} {s : System} → Inv env cl steps s → Inv env cl (suc steps) s
  Inv-later inv = record {
    global = Global-later inv.global;
    seqn_eq = inv.seqn_eq;
    addrs_eq = inv.addrs_eq;
    genuine = inv.genuine;
  }

  module _ {steps : ℕ} {s : System} (inv : Inv env cl steps s)
      (roomy : (c : Bytes) → (setting cl).first c + suc steps * length cl.cals < 2 ^ 63) where
    receive-Inv :
        (n : Bytes) (p : Packet)
        → (In n cl.nodes → Origin (setting cl) (SaidIn env s.sent) n p)
        → Inv env cl (suc steps) (receive env unmarshal cl s n p)
    unfolding receive
    receive-Inv n p origin =
        if_cases (Inv env cl (suc steps)) (for_seqn (cluster_seqn cl) p.m.seqn)
          (λ _. member_or_not (dec_in n cl.nodes)) (λ _. Inv-later inv)
      where
        member_or_not :
            (d : Dec (In n cl.nodes))
            → Inv env cl (suc steps) (elim d [ yes _ ↦ handle env unmarshal cl s n p | no _ ↦ s ])
        member_or_not (yes i) =
            handle-Inv env cl injective few some_cal inv n i p (origin i) roomy unmarshal
        member_or_not (no _) = Inv-later inv

    delivered-Inv :
        (d : Sent) → In d s.sent → Inv env cl (suc steps) (deliver_sent env unmarshal cl s (some d))
    delivered-Inv d i =
        let (m, e) = inv.genuine d i in
        elim (recv_packet-cases unmarshal d.from d.datagram.payload m
          (ap unmarshal e ∙ roundtrip m)) [
            | inl dropped ↦ rw dropped (Inv-later inv)
            | inr passed ↦ rw passed (
                receive-Inv d.datagram.addr (record { addr = d.from; m = m })
                  (λ _. network (d.datagram.addr, sent_as m e)))
          ]
      where
        sent_as :
            (m : M)
            → d.datagram.payload ≡ env.marshal m
            → In
                (record {
                  from = d.from;
                  datagram = record { addr = d.datagram.addr; payload = env.marshal m };
                })
                s.sent
        sent_as m e =
            subst
              (λ x.
                In
                  (record {
                    from = d.from;
                    datagram = record { addr = d.datagram.addr; payload = x };
                  })
                  s.sent)
              e i

    deliver-Inv :
        (k : ℕ) (o : Option Sent)
        → get_elem? s.sent k ≡ o
        → Inv env cl (suc steps) (deliver_sent env unmarshal cl s o)
    deliver-Inv k none h = Inv-later inv
    deliver-Inv k (some d) h = delivered-Inv d (get_elem?-In s.sent k h)

    step-Inv : (e : Event) → IsAllowed cl e → Inv env cl (suc steps) (step env unmarshal cl s e)
    unfolding step
    step-Inv (deliver k) ok = deliver-Inv k (get_elem? s.sent k) refl
    step-Inv (propose n v) ok = receive-Inv n _ (λ _. proposal v refl ok.0 ok.1)
    step-Inv (tick n) ok = receive-Inv n _ (λ _. timer refl)

  module _ (total : ℕ) (enough : (total + 2) * length cl.cals < 2 ^ 63) where
    pub two_cals : length cl.cals + length cl.cals < 2 ^ 63
    two_cals = grind arith

    roomy :
        (steps : ℕ)
        → steps < total
        → (c : Bytes) → (setting cl).first c + suc steps * length cl.cals < 2 ^ 63
    roomy steps h c = grind (arith, (start_round env cl two_cals some_cal c).1)

    pub run_events-Inv :
        (steps : ℕ) (s : System) (es : List Event)
        → steps + length es ≤ total
        → All (IsAllowed cl) es
        → Inv env cl steps s
        → Inv env cl (steps + length es) (run_events env unmarshal cl s es)
    unfolding run_events
    run_events-Inv steps s [] h ok inv = let e : steps ≡ steps + 0 = omega arith in rw (← e) inv
    run_events-Inv steps s (e ∷ es) h ok inv =
        let e' : suc steps + length es ≡ steps + suc (length es) = omega arith in
        rw (← e') (
          run_events-Inv (suc steps) (step env unmarshal cl s e) es (omega arith) ok.1
            (step-Inv inv (roomy steps (omega arith)) e ok.0))
