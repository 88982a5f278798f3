-- ===== src/Consensus/Safety/Promises.antt =====
-- What an acceptor has said binds it: the invariant of one acceptor, kept by `Acceptor.update`.
use doozer.Common.{
  ℤ, pos, ◌<ℤ◌, ◌≤ℤ◌, eq_of_parts, parts_of_eq, Bytes, Option, some, ◌≡◌, ◌≢◌, refl, ◌⊎◌, inl, inr,
  ◌∙◌, sym, arith,
}
use doozer.Consensus.Message.{M, rsvp_msg, vote_msg}
use doozer.Consensus.Run.{stamp}
use doozer.Consensus.Acceptor.{Acceptor, Outcome, ignored, promised, voted}
use doozer.Consensus.Safety.Grows.{Saying, Grows}
use mathlib.Core.Option

pub record Promises (q : ℤ) (Said : Saying) (a : Bytes) (ac : Acceptor) : Type 0 where
  pub nonneg : pos 0 ≤ℤ ac.vrnd
  pub ordered : ac.vrnd ≤ℤ ac.rnd
  pub bounded : (r : ℤ) (v : Bytes) → Said a (vote_msg (some q) r v) → (pos 0 <ℤ r) × (r ≤ℤ ac.vrnd)
  pub latest : (v : Bytes) → Said a (vote_msg (some q) ac.vrnd v) → v ≡ ac.vval
  pub recorded : pos 0 <ℤ ac.vrnd → Said a (vote_msg (some q) ac.vrnd ac.vval)
  pub unique :
      (r : ℤ) (v w : Bytes)
      → Said a (vote_msg (some q) r v)
      → Said a (vote_msg (some q) r w)
      → v ≡ w
  pub promise :
      (i vr : ℤ) (v : Bytes)
      → Said a (rsvp_msg (some q) i vr v)
      → (i ≤ℤ ac.rnd) × (pos 0 ≤ℤ vr) × (vr <ℤ i)
  pub backed :
      (i vr : ℤ) (v : Bytes)
      → Said a (rsvp_msg (some q) i vr v)
      → pos 0 <ℤ vr
      → Said a (vote_msg (some q) vr v)
  pub kept :
      (i vr r : ℤ) (v w : Bytes)
      → Said a (rsvp_msg (some q) i vr v)
      → Said a (vote_msg (some q) r w)
      → r <ℤ i
      → r ≤ℤ vr

module _ {q : ℤ} {Said Said' : Saying} {a : Bytes} {ac : Acceptor} (p : Promises q Said a ac) where
  module _ (i : ℤ) (h : ac.rnd <ℤ i)
      (g : Grows a (some (rsvp_msg (some q) i ac.vrnd ac.vval)) Said Said') where
    old_vote :
        (r : ℤ) (v : Bytes) → Said' a (vote_msg (some q) r v) → Said a (vote_msg (some q) r v)
    old_vote r v s = ground (arith, g.fresh a (vote_msg (some q) r v) s)

    new_rsvp :
        (j vr : ℤ) (v : Bytes)
        → Said' a (rsvp_msg (some q) j vr v)
        → Said a (rsvp_msg (some q) j vr v) ⊎ ((j ≡ i) × (vr ≡ ac.vrnd) × (v ≡ ac.vval))
    new_rsvp j vr v s = elim (g.fresh a (rsvp_msg (some q) j vr v) s) [
      | inl old ↦ inl old
      | inr (_, e) ↦ inr (ground arith)
    ]

    promised-promise :
        (j vr : ℤ) (v : Bytes)
        → Said' a (rsvp_msg (some q) j vr v)
        → (j ≤ℤ i) × (pos 0 ≤ℤ vr) × (vr <ℤ j)
    promised-promise j vr v s = elim (new_rsvp j vr v s) [
      | inl old ↦ omega (arith, p.promise j vr v old)
      | inr (e, e', _) ↦ rw (e, e') (omega (arith, p.nonneg, p.ordered))
    ]

    promised-backed :
        (j vr : ℤ) (v : Bytes)
        → Said' a (rsvp_msg (some q) j vr v)
        → pos 0 <ℤ vr
        → Said' a (vote_msg (some q) vr v)
    promised-backed j vr v s h' = elim (new_rsvp j vr v s) [
      | inl old ↦ g.keep _ _ (p.backed j vr v old h')
      | inr (_, e, e') ↦ rw (e, e') (g.keep _ _ (p.recorded (rw e at h')))
    ]

    promised-kept :
        (j vr r : ℤ) (v w : Bytes)
        → Said' a (rsvp_msg (some q) j vr v)
        → Said' a (vote_msg (some q) r w)
        → r <ℤ j
        → r ≤ℤ vr
    promised-kept j vr r v w s t below = elim (new_rsvp j vr v s) [
      | inl old ↦ p.kept j vr r v w old (old_vote r w t) below
      | inr (_, e, _) ↦ rw e (p.bounded r w (old_vote r w t)).1
    ]

    promised-Promises : Promises q Said' a (record ac { rnd = i })
    promised-Promises = record {
      nonneg = p.nonneg;
      ordered = omega (arith, p.ordered);
      bounded = λ r v s. p.bounded r v (old_vote r v s);
      latest = λ v s. p.latest v (old_vote ac.vrnd v s);
      recorded = λ e. g.keep _ _ (p.recorded e);
      unique = λ r v w s t. p.unique r v w (old_vote r v s) (old_vote r w t);
      promise = promised-promise;
      backed = promised-backed;
      kept = promised-kept;
    }

  module _ (i : ℤ) (x : Bytes) (h : ac.rnd ≤ℤ i) (ne : i ≢ ac.vrnd)
      (g : Grows a (some (vote_msg (some q) i x)) Said Said') where
    old_rsvp :
        (j vr : ℤ) (v : Bytes)
        → Said' a (rsvp_msg (some q) j vr v)
        → Said a (rsvp_msg (some q) j vr v)
    old_rsvp j vr v s = ground (arith, g.fresh a (rsvp_msg (some q) j vr v) s)

    new_vote :
        (r : ℤ) (v : Bytes)
        → Said' a (vote_msg (some q) r v)
        → Said a (vote_msg (some q) r v) ⊎ ((r ≡ i) × (v ≡ x))
    new_vote r v s = elim (g.fresh a (vote_msg (some q) r v) s) [
      | inl old ↦ inl old
      | inr (_, e) ↦ inr (ground arith)
    ]

    -- The round is above that of every vote before, and is not negative.
    above : ac.vrnd <ℤ i
    above = ground (arith, p.ordered, eq_of_parts i ac.vrnd)

    voted-bounded : (r : ℤ) (v : Bytes) → Said' a (vote_msg (some q) r v) → (pos 0 <ℤ r) × (r ≤ℤ i)
    voted-bounded r v s = elim (new_vote r v s) [
      | inl old ↦ omega (arith, p.bounded r v old, above)
      | inr (e, _) ↦ rw e (omega (arith, above, p.nonneg))
    ]

    voted_unique :
        (r : ℤ) (v w : Bytes)
        → Said' a (vote_msg (some q) r v)
        → Said' a (vote_msg (some q) r w)
        → v ≡ w
    voted_unique r v w s t = elim (new_vote r v s) [
      | inl old ↦ elim (new_vote r w t) [
        | inl old' ↦ p.unique r v w old old'
        | inr (e, _) ↦ absurd (omega (arith, above, p.bounded r v old, parts_of_eq e))
      ]
      | inr (e, ev) ↦ elim (new_vote r w t) [
        | inl old' ↦ absurd (omega (arith, above, p.bounded r w old', parts_of_eq e))
        | inr (_, ew) ↦ ev ∙ sym ew
      ]
    ]

    voted-latest : (v : Bytes) → Said' a (vote_msg (some q) i v) → v ≡ x
    voted-latest v s = elim (new_vote i v s) [
      | inl old ↦ absurd (omega (arith, above, p.bounded i v old))
      | inr (_, e) ↦ e
    ]

    voted-kept :
        (j vr r : ℤ) (v w : Bytes)
        → Said' a (rsvp_msg (some q) j vr v)
        → Said' a (vote_msg (some q) r w)
        → r <ℤ j
        → r ≤ℤ vr
    voted-kept j vr r v w s t below = elim (new_vote r w t) [
      | inl old ↦ p.kept j vr r v w (old_rsvp j vr v s) old below
      | inr (e, _) ↦
          absurd (omega (arith, p.promise j vr v (old_rsvp j vr v s), parts_of_eq e, h, below))
    ]

    voted-Promises : Promises q Said' a (record { rnd = i; vrnd = i; vval = x })
    voted-Promises = record {
      nonneg = omega (arith, above, p.nonneg);
      ordered = omega arith;
      bounded = voted-bounded;
      latest = voted-latest;
      recorded = λ _. g.added _ refl;
      unique = voted_unique;
      promise = λ j vr v s. omega (arith, p.promise j vr v (old_rsvp j vr v s), h);
      backed = λ j vr v s pv. g.keep _ _ (p.backed j vr v (old_rsvp j vr v s) pv);
      kept = voted-kept;
    }

-- What others say, and what this node says in its other roles, leaves the invariant alone.
pub Promises-frame :
    {q : ℤ} {Said Said' : Saying} {a : Bytes} {ac : Acceptor}
    → Promises q Said a ac
    → ((m : M) → Said a m → Said' a m)
    → ((r : ℤ) (v : Bytes) → Said' a (vote_msg (some q) r v) → Said a (vote_msg (some q) r v))
    → ((i vr : ℤ) (v : Bytes)
        → Said' a (rsvp_msg (some q) i vr v)
        → Said a (rsvp_msg (some q) i vr v))
    → Promises q Said' a ac
Promises-frame {ac} p keep vote rsvp = record {
  nonneg = p.nonneg;
  ordered = p.ordered;
  bounded = λ r v s. p.bounded r v (vote r v s);
  latest = λ v s. p.latest v (vote ac.vrnd v s);
  recorded = λ e. keep _ (p.recorded e);
  unique = λ r v w s t. p.unique r v w (vote r v s) (vote r w t);
  promise = λ j vr v s. p.promise j vr v (rsvp j vr v s);
  backed = λ j vr v s e. keep _ (p.backed j vr v (rsvp j vr v s) e);
  kept = λ j vr r v w s t e. p.kept j vr r v w (rsvp j vr v s) (vote r w t) e;
}

-- One call of `Acceptor.update` keeps the invariant of its node.
pub Outcome-Promises :
    {q : ℤ} {Said Said' : Saying} {a : Bytes} {ac ac' : Acceptor} {m : M} {out : Option M}
    → Outcome ac m ac' out
    → Promises q Said a ac
    → Grows a (Option.map (stamp q) out) Said Said'
    → Promises q Said' a ac'
Outcome-Promises {q} {Said} {Said'} {a} (ignored e o) p g = rw e (
    Promises-frame p (g.keep a) (λ r v s. ground (arith, g.fresh a (vote_msg (some q) r v) s))
      (λ i vr v s. ground (arith, g.fresh a (rsvp_msg (some q) i vr v) s)))
Outcome-Promises (promised i c e h e' o) p g = rw e' (promised-Promises p i h (rw o at g))
Outcome-Promises (voted i c e h ne e' o) p g = rw e' (voted-Promises p i _ h ne (rw o at g))
