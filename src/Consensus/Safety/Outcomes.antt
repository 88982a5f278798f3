-- ===== src/Consensus/Safety/Outcomes.antt =====
-- The counts of a learner of src/pkg/consensus/learner.go after each outcome of its `update`.
use doozer.Common.{
  ℕ, suc, ℤ, pos, ◌+ℤ◌, ◌+₆₄◌, +₆₄-eq-+ℤ, ◌≤ℤ◌, ◌≤◌, ◌<◌, ◌^◌, parts_of_eq, Bool, true, false,
  Bytes, bytes_eq, bytes_eq_iff, bytes_eq_refl, Option, none, some, List, [], ◌∷◌, In, In-cons,
  length, length-le-of_subset, lookup, lookup-insert, bytes_key, if_cases, Bool-cases, ◌≡◌, ◌≢◌,
  refl, sym, ap, ◌∙◌, inl, inr, arith,
}
use mathlib.Core.Option
use doozer.Consensus.Message.{M, Packet, vote, learn, vote_msg, learn_msg}
use doozer.Consensus.Run.{stamp}
use doozer.Consensus.Learner.{
  Learner, Learned, votes_for, has_voted, or_false, tally, restart, Counts, same, later, Outcome,
  ignored, told, repeated, counted, won,
}
use doozer.Consensus.Safety.Grows.{Saying, Grows}
use doozer.Consensus.Safety.Tallies.{Chosen, Voters, Voters-mono, Tallies, Chosen-mono}

restart-Voters :
    (q : ℤ) (nodes : List Bytes) (Said : Saying) (ln : Learner) (r : ℤ) (k : Bytes)
    → Voters q nodes Said (restart ln r) k
unfolding lookup
restart-Voters q nodes Said ln r k = record {
  voters = [];
  distinct = tt;
  members = λ a i. elim i [ ];
  votes = λ a i. elim i [ ];
  marked = λ a i. elim i [ ];
  count = refl;
}

-- The learner that a vote is counted in has sound counts, whether or not the round is new.
base-Voters :
    {q : ℤ} {quorum : ℕ} {nodes : List Bytes} {Said : Saying} {n : Bytes} {ln base : Learner}
    {i : ℤ}
    → Tallies q quorum nodes Said n ln
    → Counts ln i base
    → (k : Bytes) → Voters q nodes Said base k
base-Voters t (same _ e) k = rw e (t.counts k)
base-Voters {q} {nodes} {Said} {ln} {i} t (later _ e) k = rw e (restart-Voters q nodes Said ln i k)

base-rest :
    {ln base : Learner} {i : ℤ}
    → Counts ln i base
    → (base.quorum ≡ ln.quorum) × (base.done ≡ ln.done) × (base.v ≡ ln.v) × (base.round ≡ i)
base-rest (same e e') = ground arith
base-rest (later e e') = ground arith

module _ {q : ℤ} {nodes : List Bytes} {Said : Saying} {base : Learner} (few : length nodes < 2 ^ 63)
    (counts : (k : Bytes) → Voters q nodes Said base k) (addr k : Bytes) (member : In addr nodes)
    (said : Said addr (vote_msg (some q) base.round k)) (first : has_voted base addr ≡ false) where
  marked-tally : (a : Bytes) → has_voted base a ≡ true → has_voted (tally base addr k) a ≡ true
  marked-tally a h =
      rw (lookup-insert addr a true base.voted)
        (if_cases (λ (o : Option Bool). or_false o ≡ true) (bytes_eq addr a) (λ _. refl) (λ _. h))

  votes_for-tally_ne :
      (j : Bytes) → bytes_eq k j ≡ false → votes_for (tally base addr k) j ≡ votes_for base j
  votes_for-tally_ne j h = rw (lookup-insert k j (votes_for base k +₆₄ pos 1) base.votes, h)

  votes_for-tally_self : votes_for (tally base addr k) k ≡ votes_for base k +₆₄ pos 1
  votes_for-tally_self =
      rw (lookup-insert k k (votes_for base k +₆₄ pos 1) base.votes, bytes_eq_refl k)

  unmarked : ¬ In addr (counts k).voters
  unmarked i = cc ((counts k).marked addr i, first)

  grown : List Bytes
  grown = addr ∷ (counts k).voters

  grown-members : (a : Bytes) → In a grown → In a nodes
  unfolding grown
  grown-members a i = elim (In-cons i) [ inl e ↦ rw e member | inr j ↦ (counts k).members a j ]

  length-grown-le : suc (length (counts k).voters) ≤ length nodes
  unfolding grown
  length-grown-le = length-le-of_subset grown nodes (unmarked, (counts k).distinct) grown-members

  grown-count : votes_for base k +₆₄ pos 1 ≡ pos (suc (length (counts k).voters))
  unfolding ◌+ℤ◌
  grown-count = rw (counts k).count (
      +₆₄-eq-+ℤ (pos (length (counts k).voters)) (pos 1) (ground (arith, length-grown-le))
      ∙ ground arith)

  tally-Voters-self : Voters q nodes Said (tally base addr k) k
  unfolding grown
  tally-Voters-self = record {
    voters = grown;
    distinct = (unmarked, (counts k).distinct);
    members = grown-members;
    votes = λ a i. elim (In-cons i) [ inl e ↦ rw e said | inr j ↦ (counts k).votes a j ];
    marked = λ a i. elim (In-cons i) [
      | inl e ↦ rw (e, lookup-insert addr addr true base.voted, bytes_eq_refl addr)
      | inr j ↦ marked-tally a ((counts k).marked a j)
    ];
    count = votes_for-tally_self ∙ grown-count;
  }

  tally-Voters : (j : Bytes) → Voters q nodes Said (tally base addr k) j
  tally-Voters j = elim (Bool-cases (bytes_eq k j)) [
    | inl e ↦ rw (← (bytes_eq_iff k j).0 e) tally-Voters-self
    | inr n ↦ record {
      voters = (counts j).voters;
      distinct = (counts j).distinct;
      members = (counts j).members;
      votes = (counts j).votes;
      marked = λ a i. marked-tally a ((counts j).marked a i);
      count = votes_for-tally_ne j n ∙ (counts j).count;
    }
  ]

  -- Enough votes for the value that was voted for make it chosen.
  tally-Chosen :
      (quorum : ℕ)
      → base.quorum ≡ pos quorum
      → base.quorum ≤ℤ votes_for (tally base addr k) k
      → Chosen q quorum nodes Said k
  tally-Chosen quorum e h =
      let w = tally-Voters-self in
      record {
        round = base.round;
        voters = w.voters;
        distinct = w.distinct;
        members = w.members;
        enough = omega (arith, parts_of_eq e, parts_of_eq w.count, h);
        votes = w.votes;
      }

-- Being done with a value changes no count.
finished-Voters :
    {q : ℤ} {nodes : List Bytes} {Said : Saying} {ln : Learner} {k : Bytes} (v : Bytes)
    → Voters q nodes Said ln k
    → Voters q nodes Said (record ln { done = true; v = v }) k
finished-Voters v w = record {
  voters = w.voters;
  distinct = w.distinct;
  members = w.members;
  votes = w.votes;
  marked = w.marked;
  count = w.count;
}

-- A message about the value is all that matters to `told`.
no_learn :
    {q : ℤ} {Said Said' : Saying} {n : Bytes} {out : Option M}
    → Grows n out Said Said'
    → ((v : Bytes) → out ≢ some (learn_msg (some q) v))
    → (v : Bytes) → Said' n (learn_msg (some q) v)
    → Said n (learn_msg (some q) v)
no_learn {q} {n} g none_out v s = elim (g.fresh n (learn_msg (some q) v) s) [
  | inl old ↦ old
  | inr (_, e) ↦ absurd (none_out v e)
]

module _ {q : ℤ} {quorum : ℕ} {nodes : List Bytes} {Said Said' : Saying} {n : Bytes} {ln : Learner}
    (p : Packet) (r : Learned) (few : length nodes < 2 ^ 63) (t : Tallies q quorum nodes Said n ln)
    (member : (p.m.cmd ≡ some vote) → In p.addr nodes)
    (said : (i : ℤ)
      → p.m.cmd ≡ some vote
      → p.m.vrnd ≡ some i
      → Said p.addr (vote_msg (some q) i p.m.value))
    (informed : p.m.cmd ≡ some learn → Chosen q quorum nodes Said p.m.value)
    (g : Grows n (Option.map (stamp q) r.m) Said Said') where
  -- An outcome that tells nobody anything.
  quiet-Tallies :
      (base : Learner)
      → r.m ≡ none
      → base.quorum ≡ ln.quorum
      → (base.done ≡ true → Chosen q quorum nodes Said base.v)
      → ((k : Bytes) → Voters q nodes Said base k)
      → Tallies q quorum nodes Said' n base
  quiet-Tallies base o e done counts = record {
    quorum_eq = e ∙ t.quorum_eq;
    counts = λ k. Voters-mono g.keep (counts k);
    settled = λ d. Chosen-mono g.keep (done d);
    told = λ v s. Chosen-mono g.keep (t.told v (no_learn g (λ v h. ground arith) v s));
  }

  module _ (i : ℤ) (base : Learner) (cs : Counts ln i base) (cmd : p.m.cmd ≡ some vote)
      (vrnd : p.m.vrnd ≡ some i) (first : has_voted base p.addr ≡ false) where
    here_said : Said p.addr (vote_msg (some q) base.round p.m.value)
    here_said = rw (base-rest cs).3 (said i cmd vrnd)

    after : (k : Bytes) → Voters q nodes Said (tally base p.addr p.m.value) k
    after = tally-Voters few (base-Voters t cs) p.addr p.m.value (member cmd) here_said first

    won-Chosen :
        base.quorum ≤ℤ votes_for (tally base p.addr p.m.value) p.m.value
        → Chosen q quorum nodes Said p.m.value
    won-Chosen =
        tally-Chosen few (base-Voters t cs) p.addr p.m.value (member cmd) here_said first quorum
          ((base-rest cs).0 ∙ t.quorum_eq)

  won-told :
      r.m ≡ some (learn_msg none p.m.value)
      → Chosen q quorum nodes Said p.m.value
      → (v : Bytes) → Said' n (learn_msg (some q) v)
      → Chosen q quorum nodes Said v
  won-told o c v s = elim (g.fresh n (learn_msg (some q) v) s) [
    | inl old ↦ t.told v old
    | inr (_, e) ↦ let same_value : v ≡ p.m.value = ground arith in rw same_value c
  ]

  pub Outcome-Tallies : {ln' : Learner} → Outcome ln p ln' r → Tallies q quorum nodes Said' n ln'
  Outcome-Tallies (ignored e o) = rw e (quiet-Tallies ln (ap (λ x. x.m) o) refl t.settled t.counts)
  Outcome-Tallies (told d c e o) = rw e (
      quiet-Tallies (record ln { done = true; v = p.m.value }) (ap (λ x. x.m) o) refl
        (λ _. informed c) (λ k. finished-Voters p.m.value (t.counts k)))
  Outcome-Tallies (repeated i base cs e o) = rw e (
      quiet-Tallies base (ap (λ x. x.m) o) (base-rest cs).0
        (λ d. rw (base-rest cs).2 (t.settled (sym (base-rest cs).1 ∙ d))) (base-Voters t cs))
  Outcome-Tallies (counted i base d c h cs f e o) = rw e (
      quiet-Tallies (tally base p.addr p.m.value) (ap (λ x. x.m) o) (base-rest cs).0
        (λ d'. absurd (cc ((base-rest cs).1, d, d'))) (after i base cs c h f))
  Outcome-Tallies (won i base d c h cs f enough e o) =
      let chosen = won-Chosen i base cs c h f enough in
      rw e (record {
        quorum_eq = (base-rest cs).0 ∙ t.quorum_eq;
        counts = λ k. Voters-mono g.keep (finished-Voters p.m.value (after i base cs c h f k));
        settled = λ _. Chosen-mono g.keep chosen;
        told = λ v s. Chosen-mono g.keep (won-told (ap (λ x. x.m) o) chosen v s);
      })
