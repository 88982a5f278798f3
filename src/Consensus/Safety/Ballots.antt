-- ===== src/Consensus/Safety/Ballots.antt =====
-- What a coordinator collects and nominates: the invariant of one coordinator, kept by
-- `Coordinator.update`.
use doozer.Common.{
  ℕ, ℤ, pos, ◌<ℤ◌, ◌≤ℤ◌, ◌≤◌, true, false, Bytes, some, List, [], In, length, IsDistinct, keys,
  bytes_key, ◌≡◌, ◌≢◌, ◌⊎◌, inl, inr,
}
use doozer.Consensus.Message.{M, rsvp_msg, nominate_msg}
use doozer.Consensus.Coordinator.{Coordinator}
use doozer.Consensus.Safety.Grows.{Saying}

-- A node has promised round `r` and reported no vote above `vr`.
pub record Heard (q : ℤ) (Said : Saying) (r vr : ℤ) (a : Bytes) : Type 0 where
  pub vrnd : ℤ
  pub vval : Bytes
  pub said : Said a (rsvp_msg (some q) r vrnd vval)
  pub below : vrnd ≤ℤ vr

-- The vote reported highest, if there was any.
abbrev pub Highest : ℤ → Saying → ℤ → ℤ → Bytes → Type 0
Highest q Said r vr v =
    (vr ≡ pos 0) ⊎ ((pos 0 <ℤ vr) × (a : Bytes) × Said a (rsvp_msg (some q) r vr v))

-- Why `v` may be nominated in round `r`.
pub record Justified (q : ℤ) (quorum : ℕ) (Said : Saying) (r : ℤ) (v : Bytes) : Type 0 where
  pub nodes : List Bytes
  pub vr : ℤ
  pub vv : Bytes
  pub distinct : IsDistinct nodes
  pub enough : quorum ≤ length nodes
  pub reports : (a : Bytes) → In a nodes → Heard q Said r vr a
  pub highest : Highest q Said r vr vv
  pub chosen : pos 0 <ℤ vr → v ≡ vv

pub record Ballots (q : ℤ) (quorum : ℕ) (Said : Saying) (c : Bytes) (co : Coordinator)
    : Type 0 where
  pub quor_eq : co.quor ≡ quorum
  pub idle : co.begun ≡ false → (r : ℤ) (v : Bytes) → ¬ Said c (nominate_msg (some q) r v)
  pub aimed : co.begun ≡ true → co.target ≢ []
  pub past : (r : ℤ) (v : Bytes) → Said c (nominate_msg (some q) r v) → r ≤ℤ co.crnd
  pub once : (v : Bytes) → Said c (nominate_msg (some q) co.crnd v) → co.cval ≢ []
  pub unique :
      (r : ℤ) (v w : Bytes)
      → Said c (nominate_msg (some q) r v)
      → Said c (nominate_msg (some q) r w)
      → v ≡ w
  pub nonempty : (r : ℤ) (v : Bytes) → Said c (nominate_msg (some q) r v) → v ≢ []
  pub justified :
      (r : ℤ) (v : Bytes) → Said c (nominate_msg (some q) r v) → Justified q quorum Said r v
  pub distinct : IsDistinct (keys co.rsvps)
  pub reports : (a : Bytes) → In a (keys co.rsvps) → Heard q Said co.crnd co.vr a
  pub highest : Highest q Said co.crnd co.vr co.vv

module _ {q : ℤ} {Said Said' : Saying} (keep : (a : Bytes) (m : M) → Said a m → Said' a m) where
  pub Heard-mono : {r vr : ℤ} {a : Bytes} → Heard q Said r vr a → Heard q Said' r vr a
  Heard-mono h = record { vrnd = h.vrnd; vval = h.vval; said = keep _ _ h.said; below = h.below }

  pub Highest-mono : {r vr : ℤ} {v : Bytes} → Highest q Said r vr v → Highest q Said' r vr v
  Highest-mono (inl e) = inl e
  Highest-mono (inr (p, a, s)) = inr (p, a, keep _ _ s)

  pub Justified-mono :
      {quorum : ℕ} {r : ℤ} {v : Bytes} → Justified q quorum Said r v → Justified q quorum Said' r v
  Justified-mono j = record {
    nodes = j.nodes;
    vr = j.vr;
    vv = j.vv;
    distinct = j.distinct;
    enough = j.enough;
    reports = λ a i. Heard-mono (j.reports a i);
    highest = Highest-mono j.highest;
    chosen = j.chosen;
  }

  -- Other nodes, and this node in its other roles, leave the invariant alone.
  pub Ballots-frame :
      {quorum : ℕ} {c : Bytes} {co : Coordinator}
      → Ballots q quorum Said c co
      → ((r : ℤ) (v : Bytes)
          → Said' c (nominate_msg (some q) r v)
          → Said c (nominate_msg (some q) r v))
      → Ballots q quorum Said' c co
  Ballots-frame {co} b back = record {
    quor_eq = b.quor_eq;
    idle = λ e r v s. b.idle e r v (back r v s);
    aimed = b.aimed;
    past = λ r v s. b.past r v (back r v s);
    once = λ v s. b.once v (back co.crnd v s);
    unique = λ r v w s t. b.unique r v w (back r v s) (back r w t);
    nonempty = λ r v s. b.nonempty r v (back r v s);
    justified = λ r v s. Justified-mono (b.justified r v (back r v s));
    distinct = b.distinct;
    reports = λ a i. Heard-mono (b.reports a i);
    highest = Highest-mono b.highest;
  }
