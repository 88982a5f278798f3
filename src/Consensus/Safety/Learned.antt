-- ===== src/Consensus/Safety/Learned.antt =====
-- What two nodes that have learned have learned, under any schedule.
use doozer.Common.{
  ℕ, ℤ, ◌<◌, ◌+◌, ◌*◌, ◌/◌, ◌^◌, true, Bytes, Option, some, List, In, length, All, Bool-cases, ◌≡◌,
  inl, inr, arith,
}
use doozer.Consensus.Message.{M, nominate_msg}
use doozer.Consensus.Run.{Env}
use doozer.Consensus.System.{Cluster, cluster_seqn, start, System, Event, run_events}
use doozer.Consensus.Safety.Agreement.{World, Chosen-unique}
use doozer.Consensus.Safety.Carries.{SaidIn}
use doozer.Consensus.Safety.Reach.{Inv}
use doozer.Consensus.Safety.Start.{start-Inv}
use doozer.Consensus.Safety.Schedules.{IsAllowed, run_events-Inv, two_cals}
use doozer.Consensus.Safety.Rounds.{same_round-same_name}

module _ (env : Env) (cl : Cluster)
    (ids : (a b : Bytes) → In a cl.nodes → In b cl.nodes → cl.name a ≡ cl.name b → a ≡ b)
    (few_cals : length cl.cals + length cl.cals < 2 ^ 63) {steps : ℕ} {s : System}
    (inv : Inv env cl steps s) where
  nominators_are_cals :
      (c : Bytes) (r : ℤ) (v : Bytes)
      → SaidIn env s.sent c (nominate_msg (some (cluster_seqn cl)) r v)
      → In (cl.name c) cl.cals
  nominators_are_cals c r v said = elim (Bool-cases (s.runs c).c.begun) [
    | inl b ↦ inv.global.begun c b
    | inr n ↦ absurd ((inv.global.ballots c).idle n r v said)
  ]

  one_nominator :
      (c d : Bytes) (r : ℤ) (v w : Bytes)
      → SaidIn env s.sent c (nominate_msg (some (cluster_seqn cl)) r v)
      → SaidIn env s.sent d (nominate_msg (some (cluster_seqn cl)) r w)
      → c ≡ d
  one_nominator c d r v w sc sd =
      let (k, ec) = inv.global.owned c r v sc in
      let (l, ed) = inv.global.owned d r w sd in
      ids c d (inv.global.member c _ sc) (inv.global.member d _ sd) (
        same_round-same_name cl few_cals c d k l (nominators_are_cals c r v sc)
          (nominators_are_cals d r w sd) ec ed)

  Inv-World :
      World
        (cluster_seqn cl)
        (length cl.cals / 2 + 1)
        cl.nodes
        (λ a. (s.runs a).a)
        (SaidIn env s.sent)
  Inv-World = record {
    promises = λ a _. inv.global.promises a;
    rsvp_from = λ a r vr v said. inv.global.member a _ said;
    justified = λ c. (inv.global.ballots c).justified;
    nominated = inv.global.nominated;
    one_value = λ c d r v w sc sd.
        let e = one_nominator c d r v w sc sd in
        (inv.global.ballots d).unique r v w (rw e at sc) sd;
  }

  Inv-agree :
      length cl.nodes < 2 * (length cl.cals / 2 + 1)
      → (a b : Bytes) → (s.runs a).l.done ≡ true
      → (s.runs b).l.done ≡ true
      → (s.runs a).l.v ≡ (s.runs b).l.v
  Inv-agree majority a b da db =
      Chosen-unique (omega (arith, majority)) Inv-World ((inv.global.tallies a).settled da)
        ((inv.global.tallies b).settled db)

-- Agreement. In a cluster where any two quorums meet (fewer nodes than two quorums of the CALs) and
-- different nodes have different ids, let any schedule deliver, lose, repeat and reorder datagrams,
-- fire timers at any node, and have CALs propose values that are not empty. If two nodes have then
-- learned, they have learned the same value. Rounds are bounded by the length of the schedule so
-- that they stay within int64.
pub agreement :
    (env : Env) (unmarshal : Bytes → Option M) (cl : Cluster) (schedule : List Event) (a b : Bytes)
    → ((m : M) → unmarshal (env.marshal m) ≡ some m)
    → ((x y : Bytes) → In x cl.nodes → In y cl.nodes → cl.name x ≡ cl.name y → x ≡ y)
    → 0 < length cl.cals
    → length cl.nodes < 2 * (length cl.cals / 2 + 1)
    → length cl.nodes < 2 ^ 63
    → (length schedule + 2) * length cl.cals < 2 ^ 63
    → All (IsAllowed cl) schedule
    → ((run_events env unmarshal cl (start cl) schedule).runs a).l.done ≡ true
    → ((run_events env unmarshal cl (start cl) schedule).runs b).l.done ≡ true
    → ((run_events env unmarshal cl (start cl) schedule).runs a).l.v
      ≡ ((run_events env unmarshal cl (start cl) schedule).runs b).l.v
agreement env unmarshal cl schedule a b roundtrip ids some_cal majority few rounds allowed =
    let few_cals = two_cals env unmarshal roundtrip cl some_cal few (length schedule) rounds in
    let inv =
      run_events-Inv env unmarshal roundtrip cl some_cal few (length schedule) rounds 0 (start cl)
        schedule (omega arith) allowed (start-Inv env cl few_cals some_cal) in
    Inv-agree env cl ids few_cals inv majority a b
