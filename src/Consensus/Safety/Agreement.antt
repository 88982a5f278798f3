-- ===== src/Consensus/Safety/Agreement.antt =====
-- The argument of Paxos: what is nominated after a value has been chosen.
use doozer.Common.{
  ℕ, zero, suc, ℤ, pos, pos_part, ◌<ℤ◌, ◌≤ℤ◌, ltb_ℤ, eqb_ℤ, eqb_ℤ_iff, ◌<◌, ◌+◌, parts_of_eq,
  one_part, Bytes, dec_in, some, List, In, length, quorums_meet, Bool-cases, ◌≡◌, sym, ◌∙◌, ◌⊎◌,
  inl, inr, arith,
}
use doozer.Consensus.Message.{rsvp_msg, nominate_msg, vote_msg}
use doozer.Consensus.Acceptor.{Acceptor}
use doozer.Consensus.Safety.Grows.{Saying}
use doozer.Consensus.Safety.Promises.{Promises}
use doozer.Consensus.Safety.Ballots.{Justified, Highest}
use doozer.Consensus.Safety.Tallies.{Chosen}

-- What the argument needs of all that has been said.
pub record World (q : ℤ) (quorum : ℕ) (nodes : List Bytes) (acceptor : Bytes → Acceptor)
    (Said : Saying) : Type 0 where
  pub promises : (a : Bytes) → In a nodes → Promises q Said a (acceptor a)
  pub rsvp_from :
      (a : Bytes) (r vr : ℤ) (v : Bytes) → Said a (rsvp_msg (some q) r vr v) → In a nodes
  pub justified :
      (c : Bytes) (r : ℤ) (v : Bytes)
      → Said c (nominate_msg (some q) r v)
      → Justified q quorum Said r v
  pub nominated :
      (a : Bytes) (r : ℤ) (v : Bytes)
      → Said a (vote_msg (some q) r v)
      → (c : Bytes) × Said c (nominate_msg (some q) r v)
  pub one_value :
      (c d : Bytes) (r : ℤ) (v w : Bytes)
      → Said c (nominate_msg (some q) r v)
      → Said d (nominate_msg (some q) r w)
      → v ≡ w

pub compare_ℤ : (a b : ℤ) → (a <ℤ b) ⊎ ((a ≡ b) ⊎ (b <ℤ a))
compare_ℤ a b = elim (Bool-cases (ltb_ℤ a b)) [
  | inl t ↦ inl (ground arith)
  | inr f ↦ inr (elim (Bool-cases (eqb_ℤ a b)) [
    | inl e ↦ inl ((eqb_ℤ_iff a b).0 e)
    | inr n ↦ inr (ground arith)
  ])
]

module _ {q : ℤ} {quorum : ℕ} {nodes : List Bytes} {acceptor : Bytes → Acceptor} {Said : Saying}
    (majority : length nodes < quorum + quorum) (world : World q quorum nodes acceptor Said) where
  module _ {w : Bytes} (chosen : Chosen q quorum nodes Said w) where
    -- Some node voted for the chosen value and then answered the invitation to the later round.
    witness :
        {r : ℤ} {v : Bytes}
        → (j : Justified q quorum Said r v) → chosen.round <ℤ r
        → (chosen.round ≤ℤ j.vr) × (pos 0 <ℤ j.vr)
    witness {r} j later =
        let (a, in_j, in_v) =
          quorums_meet dec_in nodes j.nodes chosen.voters j.distinct chosen.distinct
            (λ a i. rsvp_from a i) chosen.members
            (omega (arith, majority, j.enough, chosen.enough)) in
        let h = j.reports a in_j in
        let vote = chosen.votes a in_v in
        let p = world.promises a (chosen.members a in_v) in
        let up = p.kept r h.vrnd chosen.round h.vval w h.said vote later in
        let low = p.bounded chosen.round w vote in
        (omega (arith, up, h.below), omega (arith, up, low, h.below))
      where
        rsvp_from : (a : Bytes) → In a j.nodes → In a nodes
        rsvp_from a i = let h = j.reports a i in world.rsvp_from a r h.vrnd h.vval h.said

    chosen_nominated : (c : Bytes) × Said c (nominate_msg (some q) chosen.round w)
    chosen_nominated =
        let (a, i, _) =
          quorums_meet dec_in nodes chosen.voters chosen.voters chosen.distinct chosen.distinct
            chosen.members chosen.members (omega (arith, majority, chosen.enough)) in
        world.nominated a chosen.round w (chosen.votes a i)

    -- By strong induction on the round: `n` bounds it.
    later_nominations :
        (n : ℕ) (c : Bytes) (r : ℤ) (v : Bytes)
        → pos_part r < n
        → Said c (nominate_msg (some q) r v)
        → chosen.round <ℤ r
        → v ≡ w
    later_nominations zero c r v h s later = elim h [ ]
    later_nominations (suc n) c r v h s later =
        let j = world.justified c r v s in
        let (up, some_vote) = witness j later in
        j.chosen some_vote ∙ reported j up some_vote j.highest (later_nominations n)
      where
        reported :
            (j : Justified q quorum Said r v)
            → chosen.round ≤ℤ j.vr
            → pos 0 <ℤ j.vr
            → Highest q Said r j.vr j.vv
            → ((c : Bytes) (r : ℤ) (v : Bytes)
                → pos_part r < n
                → Said c (nominate_msg (some q) r v)
                → chosen.round <ℤ r
                → v ≡ w)
            → j.vv ≡ w
        reported j up pv (inl e) ih = absurd (omega (arith, pv, parts_of_eq e))
        reported j up pv (inr (_, a, said)) ih =
            let p = world.promises a (world.rsvp_from a r j.vr j.vv said) in
            let below = p.promise r j.vr j.vv said in
            let (d, nom) = world.nominated a j.vr j.vv (p.backed r j.vr j.vv said pv) in
            elim (compare_ℤ chosen.round j.vr) [
              | inl lt ↦ ih d j.vr j.vv (omega (arith, below, h, pv, one_part j.vr)) nom lt
              | inr (inl e) ↦
                  let (d', nom') = chosen_nominated in
                  world.one_value d d' j.vr j.vv w nom (rw e at nom')
              | inr (inr gt) ↦ absurd (omega (arith, gt, up))
            ]

  -- Two chosen values are the same value.
  pub Chosen-unique :
      {v w : Bytes} → Chosen q quorum nodes Said v → Chosen q quorum nodes Said w → v ≡ w
  Chosen-unique {v} {w} cv cw =
      let (c, nv) = chosen_nominated cv in
      let (d, nw) = chosen_nominated cw in
      elim (compare_ℤ cv.round cw.round) [
        | inl lt ↦
            sym (later_nominations cv (suc (pos_part cw.round)) d cw.round w (omega arith) nw lt)
        | inr (inl e) ↦ world.one_value c d cw.round v w (rw e at nv) nw
        | inr (inr gt) ↦
            later_nominations cw (suc (pos_part cv.round)) c cv.round v (omega arith) nv gt
      ]
