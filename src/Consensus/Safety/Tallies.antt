-- ===== src/Consensus/Safety/Tallies.antt =====
-- What a learner counts: the invariant of one learner, kept by `Learner.update`.
use doozer.Common.{ℕ, ℤ, pos, ◌≤◌, true, Bytes, some, List, In, length, IsDistinct, bytes_key, ◌≡◌}
use doozer.Consensus.Message.{M, vote_msg, learn_msg}
use doozer.Consensus.Learner.{Learner, votes_for, has_voted}
use doozer.Consensus.Safety.Grows.{Saying}

-- A quorum of different nodes has voted for `v` in one round.
pub record Chosen (q : ℤ) (quorum : ℕ) (nodes : List Bytes) (Said : Saying) (v : Bytes)
    : Type 0 where
  pub round : ℤ
  pub voters : List Bytes
  pub distinct : IsDistinct voters
  pub members : (a : Bytes) → In a voters → In a nodes
  pub enough : quorum ≤ length voters
  pub votes : (a : Bytes) → In a voters → Said a (vote_msg (some q) round v)

-- The nodes behind the count of one value.
pub record Voters (q : ℤ) (nodes : List Bytes) (Said : Saying) (ln : Learner) (k : Bytes)
    : Type 0 where
  pub voters : List Bytes
  pub distinct : IsDistinct voters
  pub members : (a : Bytes) → In a voters → In a nodes
  pub votes : (a : Bytes) → In a voters → Said a (vote_msg (some q) ln.round k)
  pub marked : (a : Bytes) → In a voters → has_voted ln a ≡ true
  pub count : votes_for ln k ≡ pos (length voters)

pub record Tallies (q : ℤ) (quorum : ℕ) (nodes : List Bytes) (Said : Saying) (n : Bytes)
    (ln : Learner) : Type 0 where
  pub quorum_eq : ln.quorum ≡ pos quorum
  pub counts : (k : Bytes) → Voters q nodes Said ln k
  pub settled : ln.done ≡ true → Chosen q quorum nodes Said ln.v
  pub told : (v : Bytes) → Said n (learn_msg (some q) v) → Chosen q quorum nodes Said v

module _ {q : ℤ} {nodes : List Bytes} {Said Said' : Saying}
    (keep : (a : Bytes) (m : M) → Said a m → Said' a m) where
  pub Chosen-mono :
      {quorum : ℕ} {v : Bytes} → Chosen q quorum nodes Said v → Chosen q quorum nodes Said' v
  Chosen-mono c = record {
    round = c.round;
    voters = c.voters;
    distinct = c.distinct;
    members = c.members;
    enough = c.enough;
    votes = λ a i. keep _ _ (c.votes a i);
  }

  pub Voters-mono :
      {ln : Learner} {k : Bytes} → Voters q nodes Said ln k → Voters q nodes Said' ln k
  Voters-mono w = record {
    voters = w.voters;
    distinct = w.distinct;
    members = w.members;
    votes = λ a i. keep _ _ (w.votes a i);
    marked = w.marked;
    count = w.count;
  }

  -- The counts stay sound while every value that the node tells is a chosen one.
  pub Tallies-grown :
      {quorum : ℕ} {n : Bytes} {ln : Learner}
      → Tallies q quorum nodes Said n ln
      → ((v : Bytes) → Said' n (learn_msg (some q) v) → Chosen q quorum nodes Said v)
      → Tallies q quorum nodes Said' n ln
  Tallies-grown t tells = record {
    quorum_eq = t.quorum_eq;
    counts = λ k. Voters-mono (t.counts k);
    settled = λ d. Chosen-mono (t.settled d);
    told = λ v s. Chosen-mono (tells v s);
  }

  pub Tallies-frame :
      {quorum : ℕ} {n : Bytes} {ln : Learner}
      → Tallies q quorum nodes Said n ln
      → ((v : Bytes) → Said' n (learn_msg (some q) v) → Said n (learn_msg (some q) v))
      → Tallies q quorum nodes Said' n ln
  Tallies-frame t back = Tallies-grown t (λ v s. t.told v (back v s))
