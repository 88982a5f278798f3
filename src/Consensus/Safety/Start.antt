-- ===== src/Consensus/Safety/Start.antt =====
-- The invariant holds before anything has been sent.
use doozer.Common.{
  ℕ, ℤ, pos, negsuc, pos_part, ◌+ℤ◌, ◌<◌, ◌+◌, ◌/◌, ◌^◌, true, Bytes, [], map, length, lookup,
  bytes_key, ◌≡◌, refl, ap, ◌∙◌, inl, arith,
}
use doozer.Consensus.Message.{M}
use doozer.Consensus.Run.{Env, new_run, quorum, template}
use doozer.Consensus.Run.Index.{Starts, outside, inside, new_run-Starts}
use doozer.Consensus.Learner.{init}
use doozer.Consensus.System.{Cluster, cluster_seqn, start_run, start}
use doozer.Consensus.Safety.Promises.{Promises}
use doozer.Consensus.Safety.Ballots.{Ballots}
use doozer.Consensus.Safety.Tallies.{Tallies}
use doozer.Consensus.Safety.Carries.{SaidIn}
use doozer.Consensus.Safety.Reach.{Inv}

one_below :
    (z : ℤ) (b : ℕ) → z +ℤ pos 1 ≡ pos b → 0 < b → (z ≡ pos (pos_part z)) × (pos_part z < b + b)
unfolding ◌+ℤ◌
one_below (pos n) b e h = ground arith
one_below (negsuc n) b e h = ground arith

module _ (env : Env) (cl : Cluster) (few : length cl.cals + length cl.cals < 2 ^ 63) where
  nothing_said : (a : Bytes) (m : M) → ¬ SaidIn env [] a m
  nothing_said a m (to, i) = elim i [ ]

  start-Promises : (a : Bytes) → Promises (cluster_seqn cl) (SaidIn env []) a (start_run cl a).a
  unfolding start_run new_run
  start-Promises a = record {
    nonneg = omega arith;
    ordered = omega arith;
    bounded = λ r v s. absurd (nothing_said a _ s);
    latest = λ v s. absurd (nothing_said a _ s);
    recorded = λ h. absurd (omega arith);
    unique = λ r v w s t. absurd (nothing_said a _ s);
    promise = λ i vr v s. absurd (nothing_said a _ s);
    backed = λ i vr v s h. absurd (nothing_said a _ s);
    kept = λ i vr r v w s t h. absurd (nothing_said a _ s);
  }

  start-Ballots :
      (c : Bytes)
      → Ballots (cluster_seqn cl) (length cl.cals / 2 + 1) (SaidIn env []) c (start_run cl c).c
  unfolding start_run new_run quorum
  start-Ballots c = record {
    quor_eq = refl;
    idle = λ h r v s. nothing_said c _ s;
    aimed = λ h. cc;
    past = λ r v s. absurd (nothing_said c _ s);
    once = λ v s. absurd (nothing_said c _ s);
    unique = λ r v w s t. absurd (nothing_said c _ s);
    nonempty = λ r v s. absurd (nothing_said c _ s);
    justified = λ r v s. absurd (nothing_said c _ s);
    distinct = tt;
    reports = λ a i. elim i [ ];
    highest = inl refl;
  }

  start-Tallies :
      (n : Bytes)
      → Tallies
          (cluster_seqn cl)
          (length cl.cals / 2 + 1)
          cl.nodes
          (SaidIn env [])
          n
          (start_run cl n).l
  unfolding start_run new_run quorum init lookup
  start-Tallies n = record {
    quorum_eq = refl;
    counts = λ k. record {
      voters = [];
      distinct = tt;
      members = λ a i. elim i [ ];
      votes = λ a i. elim i [ ];
      marked = λ a i. elim i [ ];
      count = refl;
    };
    settled = λ h. cc;
    told = λ v s. absurd (nothing_said n _ s);
  }

  start_size : (c : Bytes) → (start_run cl c).c.size ≡ length cl.cals
  unfolding start_run new_run
  start_size c = refl

  start_idle : (c : Bytes) → ¬ ((start_run cl c).c.begun ≡ true)
  unfolding start_run new_run
  start_idle c h = cc

  start_seqn : (c : Bytes) → (start_run cl c).seqn ≡ cluster_seqn cl
  unfolding start_run new_run
  start_seqn c = refl

  start_addrs : (c : Bytes) → (start_run cl c).addrs ≡ map (λ a. (a, true)) cl.nodes
  unfolding start_run new_run
  start_addrs c = refl

  -- The first round of a node is not negative, and below twice the number of CALs.
  pub start_round :
      0 < length cl.cals
      → (c : Bytes)
      → ((start_run cl c).c.crnd ≡ pos (pos_part (start_run cl c).c.crnd))
        × (pos_part (start_run cl c).c.crnd < length cl.cals + length cl.cals)
  unfolding start_run
  start_round some_cal c =
      from_Starts (new_run-Starts (template (cl.name c)) cl.event_seqn cl.alpha cl.cals _ few)
    where
      from_Starts :
          Starts
            (template (cl.name c))
            cl.event_seqn
            cl.alpha
            cl.cals
            (map (λ a. (a, true)) cl.nodes)
            few
          → ((start_run cl c).c.crnd ≡ pos (pos_part (start_run cl c).c.crnd))
            × (pos_part (start_run cl c).c.crnd < length cl.cals + length cl.cals)
      from_Starts (outside h e) = one_below _ (length cl.cals) e some_cal
      from_Starts (inside k g lt e) = rw e (refl, omega arith)

  pub start-Inv : 0 < length cl.cals → Inv env cl 0 (start cl)
  start-Inv some_cal = record {
    global = record {
      form = λ a m s. absurd (nothing_said a m s);
      member = λ a m s. absurd (nothing_said a m s);
      promises = start-Promises;
      ballots = start-Ballots;
      tallies = start-Tallies;
      nominated = λ a r v s. absurd (nothing_said a _ s);
      size_eq = start_size;
      rounds = λ c. (0, (start_round some_cal c).0 ∙ ap pos (omega arith), omega arith);
      owned = λ c r v s. absurd (nothing_said c _ s);
      begun = λ c h. absurd (start_idle c h);
    };
    seqn_eq = start_seqn;
    addrs_eq = start_addrs;
    genuine = λ d i. elim i [ ];
  }
