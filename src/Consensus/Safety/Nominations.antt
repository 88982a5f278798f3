-- ===== src/Consensus/Safety/Nominations.antt =====
-- One call of `Coordinator.update` keeps the invariant of its node.
use doozer.Common.{
  ℕ, ℤ, pos, ◌<ℤ◌, ◌≤ℤ◌, ◌≤◌, parts_of_eq, true, false, Bytes, Option, some, [], In, length,
  IsDistinct, keys, length-keys, In-keys-insert, IsDistinct-keys-insert, bytes_key, ltb_ℤ,
  Bool-cases, ◌≡◌, ◌≢◌, refl, sym, ◌∙◌, ◌⊎◌, inl, inr, arith,
}
use mathlib.Core.Option
use doozer.Consensus.Message.{M, Packet, propose, rsvp, tick, rsvp_msg, nominate_msg}
use doozer.Consensus.Run.{stamp}
use doozer.Consensus.Coordinator.{
  Coordinator, Outcome, ignored, begins, hears, nominates, ticks, started, heard, choice,
  next_round,
}
use doozer.Consensus.Safety.Grows.{Saying, Grows}
use doozer.Consensus.Safety.Ballots.{
  Heard, Highest, Justified, Justified-mono, Ballots, Ballots-frame, Heard-mono, Highest-mono,
}

-- The answers that a coordinator holds to its invitation to round `r`.
record Collects (q : ℤ) (Said : Saying) (r : ℤ) (co : Coordinator) : Type 0 where
  distinct : IsDistinct (keys co.rsvps)
  reports : (a : Bytes) → In a (keys co.rsvps) → Heard q Said r co.vr a
  highest : Highest q Said r co.vr co.vv

Highest-nonneg :
    (q : ℤ) (Said : Saying) (r vr : ℤ) (v : Bytes) → Highest q Said r vr v → pos 0 ≤ℤ vr
Highest-nonneg q Said r vr v (inl e) = omega (arith, parts_of_eq e)
Highest-nonneg q Said r vr v (inr (h, _, _)) = omega arith

collected :
    {q : ℤ} {quorum : ℕ} {Said : Saying} {c : Bytes} {co : Coordinator}
    → Ballots q quorum Said c co
    → Collects q Said co.crnd co
collected b = record { distinct = b.distinct; reports = b.reports; highest = b.highest }

module _ {q : ℤ} {Said : Saying} {r : ℤ} {co : Coordinator} (cs : Collects q Said r co)
    {addr : Bytes} {vrnd : ℤ} {vval : Bytes}
    (said : Said addr (rsvp_msg (some q) r vrnd vval)) where
  vr-le-heard : (co.vr ≤ℤ (heard co addr vrnd vval).vr) × (vrnd ≤ℤ (heard co addr vrnd vval).vr)
  vr-le-heard = ground arith

  heard-reports :
      (a : Bytes)
      → In a (keys (heard co addr vrnd vval).rsvps)
      → Heard q Said r (heard co addr vrnd vval).vr a
  heard-reports a i = elim (In-keys-insert addr a true co.rsvps i) [
    | inl e ↦ rw e (record { vrnd = vrnd; vval = vval; said = said; below = vr-le-heard.1 })
    | inr j ↦
        let h = cs.reports a j in
        record {
          vrnd = h.vrnd;
          vval = h.vval;
          said = h.said;
          below = omega (arith, vr-le-heard, h.below);
        }
  ]

  heard-Highest : Highest q Said r (heard co addr vrnd vval).vr (heard co addr vrnd vval).vv
  heard-Highest = elim (Bool-cases (ltb_ℤ co.vr vrnd)) [
    | inl t ↦
        rw t (inr (ground (arith, Highest-nonneg q Said r co.vr co.vv cs.highest), addr, said))
    | inr f ↦ rw f cs.highest
  ]

  heard-Collects : Collects q Said r (heard co addr vrnd vval)
  heard-Collects = record {
    distinct = IsDistinct-keys-insert addr true co.rsvps cs.distinct;
    reports = heard-reports;
    highest = heard-Highest;
  }

module _ {q : ℤ} {quorum : ℕ} {Said Said' : Saying} {c : Bytes} {co : Coordinator}
    (b : Ballots q quorum Said c co) where
  -- What a change that sends no nomination has to keep.
  module _ (keep : (a : Bytes) (m : M) → Said a m → Said' a m)
      (back : (r : ℤ) (v : Bytes)
        → Said' c (nominate_msg (some q) r v)
        → Said c (nominate_msg (some q) r v)) where
    begins-Ballots :
        (v : Bytes) → v ≢ [] → co.begun ≡ false → Ballots q quorum Said' c (started co v)
    begins-Ballots v nonempty idle = record {
      quor_eq = b.quor_eq;
      idle = λ e. absurd (cc);
      aimed = λ _. nonempty;
      past = λ r w s. b.past r w (back r w s);
      once = λ w s. absurd (b.idle idle co.crnd w (back co.crnd w s));
      unique = λ r v w s t. b.unique r v w (back r v s) (back r w t);
      nonempty = λ r w s. b.nonempty r w (back r w s);
      justified = λ r w s. Justified-mono keep (b.justified r w (back r w s));
      distinct = tt;
      reports = λ a i. elim i [ ];
      highest = inl refl;
    }

    ticks-Ballots : co.crnd <ℤ (next_round co).crnd → Ballots q quorum Said' c (next_round co)
    ticks-Ballots up = record {
      quor_eq = b.quor_eq;
      idle = λ e r v s. b.idle e r v (back r v s);
      aimed = b.aimed;
      past = λ r w s. omega (arith, b.past r w (back r w s), up);
      once = λ w s. absurd (omega (arith, b.past _ w (back _ w s), up));
      unique = λ r v w s t. b.unique r v w (back r v s) (back r w t);
      nonempty = λ r w s. b.nonempty r w (back r w s);
      justified = λ r w s. Justified-mono keep (b.justified r w (back r w s));
      distinct = tt;
      reports = λ a i. elim i [ ];
      highest = inl refl;
    }

    hears-Ballots :
        {addr : Bytes} {vrnd : ℤ} {vval : Bytes}
        → Said addr (rsvp_msg (some q) co.crnd vrnd vval)
        → Ballots q quorum Said' c (heard co addr vrnd vval)
    hears-Ballots said =
        let cs = heard-Collects (collected b) said in
        record {
          quor_eq = b.quor_eq;
          idle = λ e r v s. b.idle e r v (back r v s);
          aimed = b.aimed;
          past = λ r w s. b.past r w (back r w s);
          once = λ w s. b.once w (back co.crnd w s);
          unique = λ r v w s t. b.unique r v w (back r v s) (back r w t);
          nonempty = λ r w s. b.nonempty r w (back r w s);
          justified = λ r w s. Justified-mono keep (b.justified r w (back r w s));
          distinct = cs.distinct;
          reports = λ a i. Heard-mono keep (cs.reports a i);
          highest = Highest-mono keep cs.highest;
        }

  -- The first nomination of a round.
  module _ (co₁ : Coordinator) (cs : Collects q Said co.crnd co₁)
      (same : (co₁.crnd ≡ co.crnd) × (co₁.begun ≡ co.begun) × (co₁.target ≡ co.target))
      (q₁ : co₁.quor ≡ co.quor) (enough : co.quor ≤ length co₁.rsvps) (begun : co.begun ≡ true)
      (first : co.cval ≡ [])
      (reported : (a : Bytes) (i vr : ℤ) (v : Bytes)
        → Said a (rsvp_msg (some q) i vr v)
        → pos 0 <ℤ vr
        → v ≢ [])
      (g : Grows c (some (nominate_msg (some q) co.crnd (choice co₁))) Said Said') where
    new_nomination :
        (r : ℤ) (v : Bytes)
        → Said' c (nominate_msg (some q) r v)
        → Said c (nominate_msg (some q) r v) ⊎ ((r ≡ co.crnd) × (v ≡ choice co₁))
    new_nomination r v s = elim (g.fresh c (nominate_msg (some q) r v) s) [
      | inl old ↦ inl old
      | inr (_, e) ↦ inr (ground arith)
    ]

    not_before : (r : ℤ) (v : Bytes) → Said c (nominate_msg (some q) r v) → r ≢ co.crnd
    not_before r v s e = b.once v (rw e at s) first

    choice-nonempty : choice co₁ ≢ []
    choice-nonempty = elim (Bool-cases (ltb_ℤ (pos 0) co₁.vr)) [
      | inl t ↦ rw t (heard_nonempty cs.highest (ground arith))
      | inr f ↦ rw (f, same.2) (b.aimed begun)
    ]
      where
        heard_nonempty : Highest q Said co.crnd co₁.vr co₁.vv → pos 0 <ℤ co₁.vr → co₁.vv ≢ []
        heard_nonempty (inl e) h = absurd (omega (arith, parts_of_eq e))
        heard_nonempty (inr (_, a, s)) h = reported a co.crnd co₁.vr co₁.vv s h

    nomination-Justified : Justified q quorum Said co.crnd (choice co₁)
    nomination-Justified = record {
      nodes = keys co₁.rsvps;
      vr = co₁.vr;
      vv = co₁.vv;
      distinct = cs.distinct;
      enough = omega (arith, enough, b.quor_eq, length-keys co₁.rsvps);
      reports = cs.reports;
      highest = cs.highest;
      chosen = λ h. ground arith;
    }

    nominates_unique :
        (r : ℤ) (v w : Bytes)
        → Said' c (nominate_msg (some q) r v)
        → Said' c (nominate_msg (some q) r w)
        → v ≡ w
    nominates_unique r v w s t = elim (new_nomination r v s) [
      | inl old ↦ elim (new_nomination r w t) [
        | inl old' ↦ b.unique r v w old old'
        | inr (e, _) ↦ absurd (not_before r v old e)
      ]
      | inr (e, ev) ↦ elim (new_nomination r w t) [
        | inl old' ↦ absurd (not_before r w old' e)
        | inr (_, ew) ↦ ev ∙ sym ew
      ]
    ]

    nominates-Ballots : Ballots q quorum Said' c (record co₁ { cval = choice co₁ })
    nominates-Ballots = record {
      quor_eq = q₁ ∙ b.quor_eq;
      idle = λ e. absurd (cc (same.1, begun, e));
      aimed = λ _. rw same.2 (b.aimed begun);
      past = λ r v s. elim (new_nomination r v s) [
        | inl old ↦ rw same.0 (b.past r v old)
        | inr (e, _) ↦ omega (arith, parts_of_eq e, parts_of_eq same.0)
      ];
      once = λ _ _. choice-nonempty;
      unique = nominates_unique;
      nonempty = λ r v s. elim (new_nomination r v s) [
        | inl old ↦ b.nonempty r v old
        | inr (_, e) ↦ rw e choice-nonempty
      ];
      justified = λ r v s. Justified-mono g.keep (elim (new_nomination r v s) [
        | inl old ↦ b.justified r v old
        | inr (e, e') ↦ rw (e, e') nomination-Justified
      ]);
      distinct = cs.distinct;
      reports = λ a i. rw same.0 (Heard-mono g.keep (cs.reports a i));
      highest = rw same.0 (Highest-mono g.keep cs.highest);
    }

-- A nomination is all that matters here; an invitation is not one.
no_nomination :
    {q : ℤ} {Said Said' : Saying} {c : Bytes} {out : Option M}
    → Grows c out Said Said'
    → ((r : ℤ) (v : Bytes) → out ≢ some (nominate_msg (some q) r v))
    → (r : ℤ) (v : Bytes) → Said' c (nominate_msg (some q) r v)
    → Said c (nominate_msg (some q) r v)
no_nomination {q} {c} g none_out r v s = elim (g.fresh c (nominate_msg (some q) r v) s) [
  | inl old ↦ old
  | inr (_, e) ↦ absurd (none_out r v e)
]

packet-eq :
    {q i vrnd : ℤ} (m : M)
    → m.seqn ≡ some q
    → m.cmd ≡ some rsvp
    → m.crnd ≡ some i
    → m.vrnd ≡ some vrnd
    → m ≡ rsvp_msg (some q) i vrnd m.value
packet-eq m s c i h = ground arith

pub Outcome-Ballots :
    {q : ℤ} {quorum : ℕ} {Said Said' : Saying} {c : Bytes} {co co' : Coordinator} {p : Packet}
    {out : Option M}
    → Outcome co p co' out
    → Ballots q quorum Said c co
    → p.m.seqn ≡ some q
    → (p.m.cmd ≡ some rsvp → Said p.addr p.m)
    → (p.m.cmd ≡ some propose → p.m.value ≢ [])
    → ((a : Bytes) (i vr : ℤ) (v : Bytes)
        → Said a (rsvp_msg (some q) i vr v)
        → pos 0 <ℤ vr
        → v ≢ [])
    → (p.m.cmd ≡ some tick → co.crnd <ℤ (next_round co).crnd)
    → Grows c (Option.map (stamp q) out) Said Said'
    → Ballots q quorum Said' c co'
Outcome-Ballots (ignored e o) b sq heard_said nonempty reported up g =
    rw e (Ballots-frame g.keep b (no_nomination g (λ r v h. ground arith)))
Outcome-Ballots (begins idle c e o) b sq heard_said nonempty reported up g =
    rw e (begins-Ballots b g.keep (no_nomination g (λ r v h. ground arith)) _ (nonempty c) idle)
Outcome-Ballots {q} {Said} {co} {p} (hears vrnd bg cv c i h e o) b sq heard_said nonempty reported
      up g =
    let said : Said p.addr (rsvp_msg (some q) co.crnd vrnd p.m.value) =
      rw (packet-eq p.m sq c i h) at (heard_said c) in
    rw e (hears-Ballots b g.keep (no_nomination g (λ r v h. ground arith)) said)
Outcome-Ballots {q} {Said} {co} {p} (nominates vrnd co₁ bg cv c i h e n e' o) b sq heard_said
      nonempty reported up g =
    let said : Said p.addr (rsvp_msg (some q) co.crnd vrnd p.m.value) =
      rw (packet-eq p.m sq c i h) at (heard_said c) in
    rw e' (
      nominates-Ballots b co₁ (rw e (heard-Collects (collected b) said)) (ground arith)
        (ground arith) (ground arith) bg cv reported (rw o at g))
Outcome-Ballots (ticks c e o) b sq heard_said nonempty reported up g =
    rw e (ticks-Ballots b g.keep (no_nomination g (λ r v h. ground arith)) (up c))
