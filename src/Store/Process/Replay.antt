-- ===== src/Store/Process/Replay.antt =====
-- Whatever the order in which operations arrive, the store replays the log.
use doozer.Common.Heap
use doozer.Common.{
  leb_ℤ, ℕ, zero, suc, ◌<◌, ℤ, pos, ◌<ℤ◌, ◌+₆₄◌, ltb_ℤ, eqb_ℤ, eqb_ℤ_iff, ◌^◌, Bool, true, false,
  Bytes, List, [], ◌∷◌, All, none, some, none≢some, if_cases, if◌then◌else◌, ◌≡◌, refl, sym, ap,
  ◌∙◌, arith,
}
use doozer.Store.Error.{Texts}
use doozer.Store.Node.{Node, empty_dir}
use doozer.Store.Event.{Event}
use doozer.Store.Apply.{apply}
use doozer.Store.Process.Steps.{
  next_lem, above_zero, applied, advance, advanced-ver, apply-seqn, drain-cons, Same, catch_up-Same,
}
use doozer.Store.Process.{
  Op, Watch, Store, Input, op, watch, clean, report, sent, flush, now, turn, push, put_log,
  clean_log, new, zero_event, logged, add_watch, drop_stopped, take_input, drain, step,
}

-- What may come in, given the mutation of every position: its operations, and no flush.
abbrev pub Ordered : (ℤ → Bytes) → Input → Type 0
Ordered value (op o) = o.mut ≡ value o.seqn
Ordered value flush = ⊥
Ordered value _ = Unit

-- `value p` is the mutation that the log has at position p.
module _ (t : Texts) (value : ℤ → Bytes) where
  -- The tree after the first `k` positions, and the event of the position after them.
  unfoldable pub replay : ℕ → Node
  replay zero = empty_dir
  replay (suc k) = (apply t (replay k) (pos (suc k)) (value (pos (suc k)))).0

  abbrev pub event_at : ℕ → Event
  event_at k = (apply t (replay k) (pos (suc k)) (value (pos (suc k)))).1

  abbrev pub Agreed : Op → Type 0
  Agreed o = (pos 0 <ℤ o.seqn) × (o.mut ≡ value o.seqn)

  -- The store is at the end of a replay, its events are those of the replay, and what it has still to
  -- do is in the log.
  pub record Replayed (s : Store) : Type 0 where
    pub last : ℕ
    pub small : last < 2 ^ 63
    pub ver_eq : s.ver ≡ pos last
    pub root_eq : s.root ≡ replay last
    pub genuine :
        (p : ℤ) (e : Event) → s.log p ≡ some e → (j : ℕ) × (p ≡ pos (suc j)) × (e ≡ event_at j)
    pub agreed : All Agreed s.todo

  push-Agreed : (o : Op) (os : List Op) → Agreed o → All Agreed os → All Agreed (push o os)
  unfolding push
  push-Agreed o os h hs = Heap.All-push (λ (p : Op). p.seqn) Agreed o os h hs

  pub new-Replayed : Replayed new
  unfolding replay
  new-Replayed = record {
    last = 0;
    small = omega arith;
    ver_eq = refl;
    root_eq = refl;
    genuine = λ p e h. absurd (none≢some h);
    agreed = tt;
  }

  -- Forgetting events keeps the rest true.
  forget-Replayed :
      {s : Store} (p n : ℤ)
      → Replayed s
      → Replayed (record s { log = put_log p none s.log; head = n })
  forget-Replayed {s} p n r = record {
    last = r.last;
    small = r.small;
    ver_eq = r.ver_eq;
    root_eq = r.root_eq;
    genuine = λ q e h. r.genuine q e (kept q (eqb_ℤ q p) h);
    agreed = r.agreed;
  }
    where
      kept :
          (q : ℤ) (b : Bool) {e : Event} → (if b then none else s.log q) ≡ some e → s.log q ≡ some e
      kept q true h = absurd (none≢some h)
      kept q false h = h

  clean-Replayed : (f : ℕ) (seqn : ℤ) {s : Store} → Replayed s → Replayed (clean_log f seqn s)
  unfolding clean_log
  clean-Replayed zero seqn r = r
  clean-Replayed (suc f) seqn {s} r =
      if_cases Replayed (leb_ℤ s.head seqn)
        (λ e. clean-Replayed f seqn (forget-Replayed s.head (s.head +₆₄ pos 1) r)) (λ e. r)

  -- Watches and notices are not part of it.
  about-Replayed :
      {s s' : Store}
      → Replayed s
      → s'.ver ≡ s.ver
      → s'.root ≡ s.root
      → s'.log ≡ s.log
      → All Agreed s'.todo
      → Replayed s'
  about-Replayed r v n l q = record {
    last = r.last;
    small = r.small;
    ver_eq = v ∙ r.ver_eq;
    root_eq = n ∙ r.root_eq;
    genuine = λ p e h. r.genuine p e (sym (ap (λ g. g p) l) ∙ h);
    agreed = q;
  }

  module _ (matches : Bytes → Bytes → Bool) (stopped : Watch → Bool) where
    applied_lem :
        {s : Store} (o : Op) (r : Replayed s)
        → o.mut ≡ value o.seqn
        → o.seqn ≡ pos (suc r.last)
        → applied t o s ≡ apply t (replay r.last) (pos (suc r.last)) (value (pos (suc r.last)))
    applied_lem o r m e =
        ap (λ n. apply t n o.seqn o.mut) r.root_eq
        ∙ (ap (apply t (replay r.last) o.seqn) m ∙ ap (λ q. apply t (replay r.last) q (value q)) e)

    log_genuine :
        {s : Store} (r : Replayed s) (k : ℕ) (e : Event)
        → e ≡ event_at k
        → e.seqn ≡ pos (suc k)
        → (p : ℤ) (ev : Event) (b : Bool) → eqb_ℤ p e.seqn ≡ b
        → (if b then some e else s.log p) ≡ some ev
        → (j : ℕ) × (p ≡ pos (suc j)) × (ev ≡ event_at j)
    log_genuine r k e same position p ev true q h =
        (k, (eqb_ℤ_iff p e.seqn).0 q ∙ position, some-eq h ∙ same)
      where
        some-eq : some e ≡ some ev → ev ≡ e
        some-eq x = cc
    log_genuine r k e same position p ev false q h = r.genuine p ev h

    -- The next operation takes the store one step further.
    advance-Replayed :
        {s : Store} (o : Op) (r : Replayed s)
        → Agreed o
        → turn o.seqn (s.ver +₆₄ pos 1) ≡ now
        → Replayed (advance t matches stopped o s)
    unfolding logged replay
    advance-Replayed {s} o r (h, m) e =
        let (seqn_eq, small) =
          next_lem r.last o.seqn r.small h
            (sym (ap (λ v. turn o.seqn (v +₆₄ pos 1)) r.ver_eq) ∙ e) in
        let same = applied_lem o r m seqn_eq in
        let position : (applied t o s).1.seqn ≡ pos (suc r.last) =
          apply-seqn t s.root o.seqn o.mut ∙ seqn_eq in
        record {
          last = suc r.last;
          small = small;
          ver_eq = position;
          root_eq = ap (λ (x : Node × Event). x.0) same;
          genuine = λ p ev k.
              log_genuine r r.last (applied t o s).1 (ap (λ (x : Node × Event). x.1) same) position
                p ev (eqb_ℤ p (applied t o s).1.seqn) refl k;
          agreed = r.agreed;
        }

    drain-Replayed :
        (os : List Op) (ver : ℤ) (ev : Event) {s : Store}
        → s.ver ≡ ver
        → Replayed s
        → All Agreed os
        → Replayed (drain t matches stopped false os ver ev s).0
    drain-Replayed [] ver ev e r h = unfold drain in about-Replayed r refl refl refl tt
    drain-Replayed (o ∷ os) ver ev {s} e r (h, hs) =
        drain-cons t matches stopped (λ x. Replayed x.0) o os ver ev s
          (λ k. about-Replayed r refl refl refl (h, hs)) (λ k. drain-Replayed os ver ev e r hs)
          (λ k.
            drain-Replayed os (applied t o s).1.seqn (applied t o s).1
              (advanced-ver t matches stopped o s)
              (advance-Replayed o r h (ap (λ v. turn o.seqn (v +₆₄ pos 1)) e ∙ k)) hs)

    Same-Replayed : {s s' : Store} → Replayed s → Same s' s → Replayed s'
    Same-Replayed r (v, (n, (l, q))) = about-Replayed r v n l (rw q r.agreed)

    op-Replayed :
        (o : Op) {s : Store}
        → o.mut ≡ value o.seqn
        → Replayed s
        → Replayed (if ltb_ℤ s.ver o.seqn then record s { todo = push o s.todo } else s)
    op-Replayed o {s} m r =
        if_cases Replayed (ltb_ℤ s.ver o.seqn)
          (λ e. about-Replayed r refl refl refl (push-Agreed o s.todo (positive e, m) r.agreed))
          (λ e. r)
      where
        positive : ltb_ℤ s.ver o.seqn ≡ true → pos 0 <ℤ o.seqn
        positive e = above_zero r.last o.seqn (sym (ap (λ v. ltb_ℤ v o.seqn) r.ver_eq) ∙ e)

    take_input-Replayed :
        (i : Input) {s : Store}
        → Ordered value i
        → Replayed s
        → Replayed (take_input t matches stopped i s)
    unfolding take_input add_watch
    take_input-Replayed (op o) h r = op-Replayed o h r
    take_input-Replayed (watch w) {s} h r =
        Same-Replayed r (catch_up-Same t matches stopped _ w.from s _)
    take_input-Replayed (clean seqn) h r = clean-Replayed _ seqn r
    take_input-Replayed report h r = r
    take_input-Replayed sent h r = about-Replayed r refl refl refl r.agreed
    take_input-Replayed flush h r = elim h [ ]

    settle-Replayed :
        (i : Input) {s : Store}
        → Ordered value i
        → Replayed s
        → let s₁ =
            take_input t matches stopped i
              (record s { notices = drop_stopped t matches stopped s.notices }) in
          Replayed (drain t matches stopped false s₁.todo s₁.ver zero_event s₁).0
    settle-Replayed i {s} h r =
        let r₁ = take_input-Replayed i h (about-Replayed r refl refl refl r.agreed) in
        drain-Replayed _ _ zero_event refl r₁ r₁.agreed

    pub step-Replayed :
        (i : Input) {s : Store}
        → Ordered value i
        → Replayed s
        → Replayed (step t matches stopped s i)
    unfolding step
    step-Replayed (op o) h r = settle-Replayed (op o) h r
    step-Replayed (watch w) h r = settle-Replayed (watch w) h r
    step-Replayed (clean seqn) h r = settle-Replayed (clean seqn) h r
    step-Replayed report h r = settle-Replayed report h r
    step-Replayed sent h r = settle-Replayed sent h r
    step-Replayed flush h r = elim h [ ]
