-- ===== src/Client/Conn/Steps.antt =====
-- What happens on a connection of src/pkg/client/client.go while a tag is being cancelled.
use doozer.Common.{
  ℕ, suc, ◌+◌, ◌^◌, ◌<◌, ◌≤◌, ℤ, InInt32, Bool, false, List, [], ◌∷◌, All, Option, none, some,
  length, lookup, insert, erase, lookup-insert, lookup-erase, length-insert, length-erase, int_key,
  eqb_ℤ, eqb_ℤ_iff, ◌==◌, if_cases, ◌≡◌, ◌≢◌, refl, sym, ap, subst, ◌∙◌, none≢some, Bool-cases, inl,
  inr, arith,
}
use doozer.Server.Request.{Reply, done_flag}
use doozer.Client.Conn.{
  Conn, Error, Written, written, unmarshalled, failed, free_tag, finish, send, has_flag, drop_done,
  deliver_to, read_response, tag_of, own, cancel_start, cancel_end, redirect_to,
}
use doozer.Client.Conn.Tags.{free_tag-none, free_tag-InInt32}

-- What happens on a connection that stays open, from the start of a call to the end of a cancel.
pub data Step : Type 0 where
  sends : ℕ → Written → Step
  reads : Reply → Step
  starts : ℤ → ℕ → Step
  ends : ℤ → Option Error → Step

unfoldable pub take_step : Conn → Step → Conn
take_step c (sends ch w) = (send c ch w).0
take_step c (reads r) = (read_response c r).0
take_step c (starts tag ch) = (cancel_start c tag ch).0
take_step c (ends tag err) = (cancel_end c tag err).0

unfoldable pub take_steps : Conn → List Step → Conn
unfolding take_step
take_steps c [] = c
take_steps c (s ∷ ss) = take_steps (take_step c s) ss

-- The step is not the end of the cancel of `tag`, after a call that succeeded.
abbrev pub IsBefore : ℤ → Step → Type 0
IsBefore tag (sends ch w) = Unit
IsBefore tag (reads r) = Unit
IsBefore tag (starts t ch) = Unit
IsBefore tag (ends t (some e)) = Unit
IsBefore tag (ends t none) = t ≢ tag

-- The tag is kept by an entry without a channel, in a table of at most `k` entries.
pub record Keeps (tag : ℤ) (k : ℕ) (c : Conn) : Type 0 where
  pub entry : lookup tag c.cb ≡ some none
  pub small : length c.cb ≤ k
  pub range : InInt32 c.n

other_key : (t tag : ℤ) → t ≢ tag → eqb_ℤ t tag ≡ false
other_key t tag n = elim (Bool-cases (eqb_ℤ t tag)) [
  | inl e ↦ absurd (n ((eqb_ℤ_iff t tag).0 e))
  | inr e ↦ e
]

lookup-insert_other :
    (t tag : ℤ) (v : Option ℕ) (cb : List (ℤ × Option ℕ))
    → t ≢ tag
    → lookup tag (insert t v cb) ≡ lookup tag cb
lookup-insert_other t tag v cb n = lookup-insert t tag v cb ∙ rw (other_key t tag n) refl

lookup-erase_other :
    (t tag : ℤ) (cb : List (ℤ × Option ℕ)) → t ≢ tag → lookup tag (erase t cb) ≡ lookup tag cb
lookup-erase_other t tag cb n = lookup-erase t tag cb ∙ rw (other_key t tag n) refl

-- What the last reply of a call with another tag leaves.
module _ {tag : ℤ} {k : ℕ} (d : Conn) (r : Reply) (g : Keeps tag k d) where
  dropped_entry : tag_of r ≢ tag → lookup tag (drop_done r.flags (tag_of r) d.cb) ≡ some none
  unfolding drop_done
  dropped_entry n =
      if_cases (λ (cb : List (ℤ × Option ℕ)). lookup tag cb ≡ some none)
        (has_flag r.flags done_flag) (λ _. lookup-erase_other (tag_of r) tag d.cb n ∙ g.entry)
        (λ _. g.entry)

  dropped_small : length (drop_done r.flags (tag_of r) d.cb) ≤ k
  unfolding drop_done
  dropped_small =
      if_cases (λ (cb : List (ℤ × Option ℕ)). length cb ≤ k) (has_flag r.flags done_flag)
        (λ _. omega (arith, length-erase (tag_of r) d.cb, g.small)) (λ _. g.small)

module _ (tag : ℤ) (k : ℕ) (few : k < 2 ^ 32) where
  pub free_tag-apart : (c : Conn) → Keeps tag k c → free_tag (suc (length c.cb)) c.n c.cb ≢ tag
  free_tag-apart c h f = none≢some (
      sym (free_tag-none c.n c.cb h.range (omega (arith, h.small, few)))
      ∙ (ap (λ j. lookup j c.cb) f ∙ h.entry))

  module _ (c : Conn) (h : Keeps tag k c) where
    abbrev chosen : ℤ
    chosen = free_tag (suc (length c.cb)) c.n c.cb

    abbrev pub with_call : ℕ → Conn
    with_call ch = record c { n = chosen; cb = insert chosen (some ch) c.cb }

    with_call-Keeps : (ch : ℕ) → Keeps tag (suc k) (with_call ch)
    with_call-Keeps ch = record {
      entry = lookup-insert_other chosen tag (some ch) c.cb (free_tag-apart c h) ∙ h.entry;
      small = omega (arith, length-insert chosen (some ch) c.cb, h.small);
      range = free_tag-InInt32 (suc (length c.cb)) c.n c.cb h.range;
    }

    erased :
        (d : Conn) (err : Option Error)
        → Keeps tag (suc k) d
        → Keeps tag (suc k) (record d { cb = erase chosen d.cb; err = err })
    erased d err g = record {
      entry = lookup-erase_other chosen tag d.cb (free_tag-apart c h) ∙ g.entry;
      small = omega (arith, length-erase chosen d.cb, g.small);
      range = g.range;
    }

    finish-Keeps : (ch : ℕ) (w : Written) → Keeps tag (suc k) (finish (with_call ch) chosen w).0
    unfolding finish
    finish-Keeps ch written = with_call-Keeps ch
    finish-Keeps ch (unmarshalled e) = erased (with_call ch) c.err (with_call-Keeps ch)
    finish-Keeps ch (failed e) = erased (with_call ch) (some e) (with_call-Keeps ch)

    later : Keeps tag (suc k) c
    later = record { entry = h.entry; small = omega (arith, h.small); range = h.range }

    send-Keeps : (ch : ℕ) (w : Written) → Keeps tag (suc k) (send c ch w).0
    unfolding send
    send-Keeps ch w =
        elim c.err
          as (λ err.
            Keeps tag (suc k)
              (elim err as (λ _. Conn × (Option ℤ × Option Error)) [
                | some e ↦ (c, (none, some e))
                | none ↦ finish (with_call ch) chosen w
              ]).0) [ some e ↦ later | none ↦ finish-Keeps ch w ]

    deliver_to-Keeps :
        (d : Conn) (r : Reply) (o : Option (Option ℕ))
        → Keeps tag (suc k) d
        → lookup (tag_of r) d.cb ≡ o
        → Keeps tag (suc k) (deliver_to d r o).0
    unfolding deliver_to
    deliver_to-Keeps d r (some none) g e = g
    deliver_to-Keeps d r none g e = record {
      entry = dropped_entry d r g (λ f. none≢some (sym e ∙ (ap (λ t. lookup t d.cb) f ∙ g.entry)));
      small = dropped_small d r g;
      range = g.range;
    }
    deliver_to-Keeps d r (some (some ch)) g e = record {
      entry = dropped_entry d r g (λ f. distinct (sym e ∙ (ap (λ t. lookup t d.cb) f ∙ g.entry)));
      small = dropped_small d r g;
      range = g.range;
    }
      where
        distinct : {ch : ℕ} → ¬ (some (some ch) ≡ some none)
        distinct f = cc

    read_response-Keeps : (r : Reply) → Keeps tag (suc k) (read_response c r).0
    unfolding read_response
    read_response-Keeps r =
        deliver_to-Keeps (redirect_to c r.body.err_code r.body.err_detail) r
          (lookup (tag_of r) c.cb)
          (record { entry = h.entry; small = omega (arith, h.small); range = h.range }) refl

    cancel_start-Keeps : (t : ℤ) (ch : ℕ) → Keeps tag (suc k) (cancel_start c t ch).0
    unfolding cancel_start own
    cancel_start-Keeps t ch = at_entry (lookup t c.cb)
      where
        kept : Keeps tag (suc k) (record c { cb = insert t none c.cb })
        kept = record {
          entry =
              lookup-insert t tag none c.cb
              ∙ if_cases (λ o. o ≡ some none) (eqb_ℤ t tag) (λ _. refl) (λ _. h.entry);
          small = omega (arith, length-insert t none c.cb, h.small);
          range = h.range;
        }

        at_entry : (o : Option (Option ℕ)) → Keeps tag (suc k) (own c t ch o).0
        at_entry none = later
        at_entry (some none) = later
        at_entry (some (some ch')) =
            if_cases (λ (d : Conn × Bool). Keeps tag (suc k) d.0) (ch' == ch) (λ _. kept)
              (λ _. later)

    cancel_end-Keeps :
        (t : ℤ) (err : Option Error)
        → IsBefore tag (ends t err)
        → Keeps tag (suc k) (cancel_end c t err).0
    unfolding cancel_end
    cancel_end-Keeps t (some e) b = later
    cancel_end-Keeps t none b = record {
      entry = lookup-erase_other t tag c.cb b ∙ h.entry;
      small = omega (arith, length-erase t c.cb, h.small);
      range = h.range;
    }

    take_step-Keeps : (s : Step) → IsBefore tag s → Keeps tag (suc k) (take_step c s)
    unfolding take_step
    take_step-Keeps (sends ch w) b = send-Keeps ch w
    take_step-Keeps (reads r) b = read_response-Keeps r
    take_step-Keeps (starts t ch) b = cancel_start-Keeps t ch
    take_step-Keeps (ends t err) b = cancel_end-Keeps t err b

pub take_steps-Keeps :
    (tag : ℤ) (k : ℕ) (c : Conn) (ss : List Step)
    → k + length ss < 2 ^ 32
    → Keeps tag k c
    → All (IsBefore tag) ss
    → Keeps tag (k + length ss) (take_steps c ss)
unfolding take_steps
take_steps-Keeps tag k c [] b h bs = record {
  entry = h.entry;
  small = omega (arith, h.small);
  range = h.range;
}
take_steps-Keeps tag k c (s ∷ ss) b h (x, xs) =
    let e : suc k + length ss ≡ k + suc (length ss) = omega arith in
    subst (λ j. Keeps tag j (take_steps (take_step c s) ss)) e
      (take_steps-Keeps tag (suc k) (take_step c s) ss (omega (arith, b))
        (take_step-Keeps tag k (omega (arith, b)) c h s x) xs)
