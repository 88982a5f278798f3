-- ===== src/Store/Process/Steps.antt =====
-- The cases of one turn of `process` of src/pkg/store/store.go, and what each leaves alone.
use doozer.Common.{
  ◌++◌, leb_ℤ, ℕ, zero, suc, ◌<◌, ℤ, pos, ◌<ℤ◌, ◌+₆₄◌, wrap64, ◌+ℤ◌, ltb_ℤ, eq_of_parts, ◌^◌, Bool,
  true, false, Bytes, bytes_eq, List, [], ◌∷◌, Option, none, some, if_cases, ◌≡◌, refl, arith,
}
use doozer.Store.Error.{Error, Texts}
use doozer.Store.Mutation.{decode}
use doozer.Store.Node.{Node}
use doozer.Store.Event.{Event}
use doozer.Store.Apply.{nop_mutation, check, commit, apply}
use doozer.Store.Process.{
  Op, Watch, Store, Turn, later, drop, now, turn, zero_event, notify, logged, catch_up, drain,
}

-- The event of a mutation has its position.
pub apply-seqn :
    (t : Texts) (n : Node) (seqn : ℤ) (mut : Bytes) → (apply t n seqn mut).1.seqn ≡ seqn
unfolding apply
apply-seqn t n seqn mut =
    if_cases (λ (r : Node × Event). r.1.seqn ≡ seqn) (bytes_eq mut nop_mutation) (λ e. refl)
      (λ e. committed (check n (decode mut)))
  where
    committed : (o : Option Error) → (commit t n seqn mut (decode mut) o).1.seqn ≡ seqn
    committed (some x) = refl
    committed none = refl

pub turn_now : (s n : ℤ) → turn s n ≡ now → s ≡ n
turn_now s n e = ground (arith, eq_of_parts s n)

pub above :
    (k : ℕ) (s : ℤ)
    → k < 2 ^ 63
    → pos 0 <ℤ s
    → s ≡ pos k +₆₄ pos 1
    → (s ≡ pos (suc k)) × (suc k < 2 ^ 63)
unfolding ◌+₆₄◌ wrap64 ◌+ℤ◌
above k s b h e = ground (arith, e)

-- The position that is counted next is the one after the last.
pub next_lem :
    (k : ℕ) (s : ℤ)
    → k < 2 ^ 63
    → pos 0 <ℤ s
    → turn s (pos k +₆₄ pos 1) ≡ now
    → (s ≡ pos (suc k)) × (suc k < 2 ^ 63)
next_lem k s b h e = above k s b h (turn_now s (pos k +₆₄ pos 1) e)

pub above_zero : (k : ℕ) (s : ℤ) → ltb_ℤ (pos k) s ≡ true → pos 0 <ℤ s
above_zero k s e = ground arith

-- Watches and notices may have changed, and nothing else.
abbrev pub Same : Store → Store → Type 0
Same s' s = (s'.ver ≡ s.ver) × ((s'.root ≡ s.root) × ((s'.log ≡ s.log) × (s'.todo ≡ s.todo)))

abbrev pub applied : Texts → Op → Store → Node × Event
applied t o s = apply t s.root o.seqn o.mut

module _ (t : Texts) (matches : Bytes → Bytes → Bool) (stopped : Watch → Bool) where
  pub catch_up-Same :
      (f : ℕ) (n : ℤ) (s : Store) (ws : List Watch) → Same (catch_up t matches stopped f n s ws).0 s
  unfolding catch_up
  catch_up-Same zero n s ws = (refl, (refl, (refl, refl)))
  catch_up-Same (suc f) n s [] = (refl, (refl, (refl, refl)))
  catch_up-Same (suc f) n s (w ∷ ws) =
      let r =
        notify t matches stopped (elim (s.log n) [ none ↦ zero_event | some e ↦ e ]) (w ∷ ws) in
      if_cases (λ (x : Store × List Watch). Same x.0 s) (leb_ℤ n s.ver)
        (λ e. catch_up-Same f (n +₆₄ pos 1) (record s { notices = s.notices ++ r.1 }) r.0)
        (λ e. (refl, (refl, (refl, refl))))

  abbrev pub advance : Op → Store → Store
  advance o s =
      logged t matches stopped (applied t o s).1
        (record s { ver = (applied t o s).1.seqn; root = (applied t o s).0 })

  pub advanced-ver : (o : Op) (s : Store) → (advance o s).ver ≡ (applied t o s).1.seqn
  unfolding logged
  advanced-ver o s = refl

  pub advanced-todo : (o : Op) (s : Store) → (advance o s).todo ≡ s.todo
  unfolding logged
  advanced-todo o s = refl

  -- A property of the inner loop without a flush, by what it does with the first operation.
  pub drain-cons :
      (P : Store × ℤ × Event → Type 0) (o : Op) (os : List Op) (ver : ℤ) (ev : Event) (s : Store)
      → (turn o.seqn (ver +₆₄ pos 1) ≡ later → P (record s { todo = o ∷ os }, ver, ev))
      → (turn o.seqn (ver +₆₄ pos 1) ≡ drop → P (drain t matches stopped false os ver ev s))
      → (turn o.seqn (ver +₆₄ pos 1) ≡ now
          → P (
              drain t matches stopped false os
                (applied t o s).1.seqn
                (applied t o s).1
                (advance o s)))
      → P (drain t matches stopped false (o ∷ os) ver ev s)
  unfolding drain
  drain-cons P o os ver ev s f g h = by_turn (turn o.seqn (ver +₆₄ pos 1)) refl
    where
      by_turn :
          (x : Turn)
          → turn o.seqn (ver +₆₄ pos 1) ≡ x
          → P (elim x as (λ y. Store × ℤ × Event) [
            | later ↦ (record s { todo = o ∷ os }, ver, ev)
            | drop ↦ drain t matches stopped false os ver ev s
            | now ↦
                drain t matches stopped false os
                  (applied t o s).1.seqn
                  (applied t o s).1
                  (advance o s)
          ])
      by_turn later q = f q
      by_turn drop q = g q
      by_turn now q = h q
