-- ===== src/Consensus/Learner.antt =====
-- src/pkg/consensus/learner.go
use doozer.Common.{
  ℤ, pos, ◌<ℤ◌, ◌≤ℤ◌, ltb_ℤ, leb_ℤ, eq_of_parts, ◌+₆₄◌, Bool, true, false, Bytes, Option, none,
  some, List, [], ◌≡◌, refl, if◌then◌else◌, lookup, insert, bytes_key, if_cases, arith,
}
use doozer.Consensus.Message.{Cmd, vote, learn, M, Packet, learn_msg}

pub record Learner : Type 0 where
  pub round : ℤ
  pub quorum : ℤ
  pub votes : List (Bytes × ℤ)
  pub voted : List (Bytes × Bool)
  pub v : Bytes
  pub done : Bool

-- `init`, called on the zero value of the struct.
unfoldable pub init : ℤ → Learner
init quorum = record {
  round = pos 1;
  quorum = quorum;
  votes = [];
  voted = [];
  v = [];
  done = false;
}

-- A read of a map gives the zero value for a missing key.
abbrev pub or_zero : Option ℤ → ℤ
or_zero none = pos 0
or_zero (some n) = n

abbrev pub or_false : Option Bool → Bool
or_false none = false
or_false (some b) = b

abbrev pub votes_for : Learner → Bytes → ℤ
votes_for ln k = or_zero (lookup k ln.votes)

abbrev pub has_voted : Learner → Bytes → Bool
has_voted ln a = or_false (lookup a ln.voted)

-- The results of `update`: a message to send, the value, and whether it has just been learned.
pub record Learned : Type 0 where
  pub m : Option M
  pub value : Bytes
  pub ok : Bool

abbrev pub nothing : Learned
nothing = record { m = none; value = []; ok = false }

-- `ln.votes[k]++; ln.voted[addr] = true`
abbrev pub tally : Learner → Bytes → Bytes → Learner
tally ln addr k = record ln {
  votes = insert k (votes_for ln k +₆₄ pos 1) ln.votes;
  voted = insert addr true ln.voted;
}

-- The case `mRound == ln.round`.
count_vote : Learner → Bytes → Bytes → Learner × Learned
count_vote ln addr k =
    if has_voted ln addr
    then (ln, nothing)
    else let counted = tally ln addr k in
      if leb_ℤ counted.quorum (votes_for counted k)
      then (
        record counted { done = true; v = k },
        record { m = some (learn_msg none k); value = k; ok = true },
      )
      else (counted, nothing)

-- The case `mRound > ln.round`, before it falls through.
abbrev pub restart : Learner → ℤ → Learner
restart ln m_round = record ln { round = m_round; votes = []; voted = [] }

on_vote : Learner → Bytes → Option ℤ → Bytes → Learner × Learned
unfolding count_vote
on_vote ln addr none v = (ln, nothing)
on_vote ln addr (some m_round) v =
    if ltb_ℤ m_round ln.round
    then (ln, nothing)
    else if ltb_ℤ ln.round m_round
    then count_vote (restart ln m_round) addr v
    else count_vote ln addr v

dispatch : Learner → Packet → Option Cmd → Learner × Learned
unfolding on_vote
dispatch ln p (some learn) =
    (record ln { done = true; v = p.m.value }, record { m = none; value = p.m.value; ok = true })
dispatch ln p (some vote) = on_vote ln p.addr p.m.vrnd p.m.value
dispatch ln p _ = (ln, nothing)

unfoldable pub update : Learner → Packet → Learner × Learned
unfolding dispatch
update ln p = if ln.done then (ln, nothing) else dispatch ln p p.m.cmd

-- The learner that a vote is counted in: the same one, or one that starts a new round.
pub data Counts (ln : Learner) (i : ℤ) : Learner → Type 0 where
  same : {ln' : Learner} → i ≡ ln.round → ln' ≡ ln → Counts ln i ln'
  later : {ln' : Learner} → ln.round <ℤ i → ln' ≡ restart ln i → Counts ln i ln'

-- What one call did: nothing; it was told the value; or it counted a vote, and perhaps won.
pub data Outcome (ln : Learner) (p : Packet) (ln' : Learner) (r : Learned) : Type 0 where
  ignored : ln' ≡ ln → r ≡ nothing → Outcome ln p ln' r
  told :
      ln.done ≡ false
      → p.m.cmd ≡ some learn
      → ln' ≡ record ln { done = true; v = p.m.value }
      → r ≡ record { m = none; value = p.m.value; ok = true }
      → Outcome ln p ln' r
  -- The node had voted in the round before; only the round may have changed.
  repeated :
      (i : ℤ) (base : Learner) → Counts ln i base → ln' ≡ base → r ≡ nothing → Outcome ln p ln' r
  counted :
      (i : ℤ) (base : Learner)
      → ln.done ≡ false
      → p.m.cmd ≡ some vote
      → p.m.vrnd ≡ some i
      → Counts ln i base
      → has_voted base p.addr ≡ false
      → ln' ≡ tally base p.addr p.m.value
      → r ≡ nothing
      → Outcome ln p ln' r
  won :
      (i : ℤ) (base : Learner)
      → ln.done ≡ false
      → p.m.cmd ≡ some vote
      → p.m.vrnd ≡ some i
      → Counts ln i base
      → has_voted base p.addr ≡ false
      → base.quorum ≤ℤ votes_for (tally base p.addr p.m.value) p.m.value
      → ln' ≡ record (tally base p.addr p.m.value) { done = true; v = p.m.value }
      → r ≡ record { m = some (learn_msg none p.m.value); value = p.m.value; ok = true }
      → Outcome ln p ln' r

module _ (ln : Learner) (p : Packet) (active : ln.done ≡ false) where
  abbrev Done : Learner × Learned → Type 0
  Done r = Outcome ln p r.0 r.1

  count_vote-Outcome :
      (i : ℤ) (base : Learner)
      → p.m.cmd ≡ some vote
      → p.m.vrnd ≡ some i
      → Counts ln i base
      → Outcome ln p (count_vote base p.addr p.m.value).0 (count_vote base p.addr p.m.value).1
  unfolding count_vote
  count_vote-Outcome i base c e h =
      if_cases Done (has_voted base p.addr) (λ _. repeated i base h refl refl)
        λ f.
          if_cases Done (leb_ℤ base.quorum (votes_for (tally base p.addr p.m.value) p.m.value))
            (λ w. won i base active c e h f (ground arith) refl refl)
            (λ _. counted i base active c e h f refl refl)

  on_vote-Outcome :
      (vrnd : Option ℤ)
      → p.m.cmd ≡ some vote
      → p.m.vrnd ≡ vrnd
      → Outcome ln p (on_vote ln p.addr vrnd p.m.value).0 (on_vote ln p.addr vrnd p.m.value).1
  unfolding on_vote
  on_vote-Outcome none c e = ignored refl refl
  on_vote-Outcome (some i) c e =
      if_cases Done (ltb_ℤ i ln.round) (λ _. ignored refl refl)
        λ f.
          if_cases Done (ltb_ℤ ln.round i)
            (λ l. count_vote-Outcome i (restart ln i) c e (later (ground arith) refl))
            (λ s. count_vote-Outcome i ln c e (same (ground (arith, eq_of_parts i ln.round)) refl))

  dispatch-Outcome :
      (cmd : Option Cmd) → p.m.cmd ≡ cmd → Outcome ln p (dispatch ln p cmd).0 (dispatch ln p cmd).1
  unfolding dispatch
  dispatch-Outcome (some learn) c = told active c refl refl
  dispatch-Outcome (some vote) c = on_vote-Outcome p.m.vrnd c refl
  dispatch-Outcome _ c = ignored refl refl

pub update-Outcome : (ln : Learner) (p : Packet) → Outcome ln p (update ln p).0 (update ln p).1
unfolding update
update-Outcome ln p =
    if_cases (λ (r : Learner × Learned). Outcome ln p r.0 r.1) ln.done (λ _. ignored refl refl)
      (λ active. dispatch-Outcome ln p active p.m.cmd refl)
