-- ===== src/Server/Handlers/Answers.antt =====
-- The replies of the handlers of src/pkg/server/server.go that answer once.
use doozer.Common.{
  ◌<ℤ◌, ltb_ℤ, leb_ℤ, pos, ◌≢◌, ◌⊎◌, inl, inr, arith, ℤ, eqb_ℤ, false, not, Bytes, List, [], ◌∷◌,
  Option, none, some, if_cases, ◌≡◌, refl,
}
use doozer.Store.Error.{Error, Texts}
use doozer.Store.Node.{Node, dir, get_path}
use doozer.Store.Event.{Event}
use doozer.Store.Process.{Store}
use doozer.Server.Propose
use doozer.Server.Propose.{Waited, late, ready, blocked, wait}
use doozer.Server.Request.{T, R, Reply, answer}
use doozer.Server.Handlers.{
  Conn, with_getter, got, get, stat, rev, set, del, nop, redirect_to, get_string, stat_reply,
  at_position, at_rev, set_answer, del_answer, set_args, del_args,
}

-- One reply, which is valid and the last, under the tag of the request.
abbrev pub IsAnswer : T → List Reply → Type 0
IsAnswer t rs = (r : R) × (rs ≡ answer t r)

-- Why a handler waits: the request names a position that is after the store's, or one that the log
-- does not have.
abbrev pub IsAwaited : Store → T → Type 0
IsAwaited st t = (n : ℤ) × (t.rev ≡ some n) × ((st.ver <ℤ n) ⊎ (st.log n ≡ none))

-- The handler answers once, or waits for such a position.
abbrev pub IsAnswerOrWaits : Store → T → Option (List Reply) → Type 0
IsAnswerOrWaits st t none = IsAwaited st t
IsAnswerOrWaits st t (some rs) = IsAnswer t rs

wait-blocked : (st : Store) (n : ℤ) → wait st n ≡ blocked → (st.ver <ℤ n) ⊎ (st.log n ≡ none)
unfolding wait
wait-blocked st n =
    if_cases Why (ltb_ℤ n (pos 1)) (λ _ e. absurd (late≢blocked e))
      (λ _.
        if_cases Why (ltb_ℤ n st.head) (λ _ e. absurd (late≢blocked e))
          (λ _.
            if_cases Why (leb_ℤ n st.ver) (λ _. logged (st.log n) refl)
              (λ k e. inl (ground arith))))
  where
    Why : Waited → Type 0
    Why w = w ≡ blocked → (st.ver <ℤ n) ⊎ (st.log n ≡ none)

    late≢blocked : late ≢ blocked
    late≢blocked e = cc

    ready≢blocked : (ev : Event) → ready ev ≢ blocked
    ready≢blocked ev e = cc

    logged : (o : Option Event) → st.log n ≡ o → Why (elim o [ none ↦ blocked | some e ↦ ready e ])
    logged none h e = inr h
    logged (some ev) h e = absurd (ready≢blocked ev e)

with_getter-IsAnswerOrWaits :
    (st : Store) (t : T) (f : Node → List Reply)
    → ((g : Node) → IsAnswer t (f g))
    → IsAnswerOrWaits st t (with_getter st t f)
unfolding with_getter
with_getter-IsAnswerOrWaits st t f h = at_any t.rev refl
  where
    waited :
        (n : ℤ) (w : Waited)
        → t.rev ≡ some n
        → wait st n ≡ w
        → IsAnswerOrWaits st t (at_position t f w)
    waited n late e k = (_, refl)
    waited n (ready ev) e k = h ev.getter
    waited n blocked e k = (n, e, wait-blocked st n k)

    at_any : (r : Option ℤ) → t.rev ≡ r → IsAnswerOrWaits st t (at_rev st t f r)
    at_any none e = h st.root
    at_any (some n) e = waited n (wait st n) e refl

got-IsAnswer : (t : T) (v : List Bytes × ℤ) → IsAnswer t (got t v)
got-IsAnswer t ([], rev) = if_cases (IsAnswer t) (eqb_ℤ rev dir) (λ _. (_, refl)) (λ _. (_, refl))
got-IsAnswer t (v ∷ [], rev) =
    if_cases (IsAnswer t) (eqb_ℤ rev dir) (λ _. (_, refl)) (λ _. (_, refl))
got-IsAnswer t (v ∷ w ∷ vs, rev) =
    if_cases (IsAnswer t) (eqb_ℤ rev dir) (λ _. (_, refl)) (λ _. (_, refl))

redirect_to-IsAnswer : (st : Store) (t : T) (o : Option Bytes) → IsAnswer t (redirect_to st t o)
unfolding redirect_to
redirect_to-IsAnswer st t none = (_, refl)
redirect_to-IsAnswer st t (some cal) = (_, refl)

set_answer-IsAnswer :
    (tx : Texts) (t : T) (seqn : ℤ) (o : Option Error) → IsAnswer t (set_answer tx t seqn o)
set_answer-IsAnswer tx t seqn none = (_, refl)
set_answer-IsAnswer tx t seqn (some Error.bad_mutation) = (_, refl)
set_answer-IsAnswer tx t seqn (some Error.rev_mismatch) = (_, refl)
set_answer-IsAnswer tx t seqn (some Error.too_late) = (_, refl)
set_answer-IsAnswer tx t seqn (some Error.enotdir) = (_, refl)
set_answer-IsAnswer tx t seqn (some Error.eisdir) = (_, refl)
set_answer-IsAnswer tx t seqn (some (Error.bad_path k)) = (_, refl)
set_answer-IsAnswer tx t seqn (some (Error.num_error k)) = (_, refl)
set_answer-IsAnswer tx t seqn (some (Error.glob_error k)) = (_, refl)

del_answer-IsAnswer : (tx : Texts) (t : T) (o : Option Error) → IsAnswer t (del_answer tx t o)
del_answer-IsAnswer tx t none = (_, refl)
del_answer-IsAnswer tx t (some e) = (_, refl)

set_args-IsAnswer :
    (tx : Texts) (c : Conn) (t : T) (path : Option Bytes) (rev : Option ℤ)
    → c.cancelled ≡ false
    → IsAnswer t (set_args tx c t path rev)
set_args-IsAnswer tx c t (some path) (some rev) k =
    rw k (set_answer-IsAnswer tx t _ (Propose.set c.propose path t.value rev).err)
set_args-IsAnswer tx c t (some path) none k = (_, refl)
set_args-IsAnswer tx c t none rev k = (_, refl)

del_args-IsAnswer :
    (tx : Texts) (c : Conn) (t : T) (path : Option Bytes) (rev : Option ℤ)
    → c.cancelled ≡ false
    → IsAnswer t (del_args tx c t path rev)
del_args-IsAnswer tx c t (some path) (some rev) k =
    rw k (del_answer-IsAnswer tx t (Propose.del c.propose path rev).err)
del_args-IsAnswer tx c t (some path) none k = (_, refl)
del_args-IsAnswer tx c t none rev k = (_, refl)

-- A request to set, to delete, for a nop or for the revision that is not cancelled gets one reply, which is
-- valid and the last, under its tag, whether the node is a CAL or not and whatever the proposal gives.
-- One to get or to stat gets one too, or it waits, and then it names a position that is after the
-- store's or that the log does not have.
pub handlers-IsAnswer :
    (tx : Texts) (st : Store) (c : Conn) (t : T)
    → c.cancelled ≡ false
    → IsAnswer t (set tx st c t)
      × (IsAnswer t (del tx st c t)
          × (IsAnswer t (nop st c t)
              × (IsAnswer t (rev st t)
                  × (IsAnswerOrWaits st t (get st t) × IsAnswerOrWaits st t (stat st t)))))
unfolding set del nop rev get stat stat_reply
handlers-IsAnswer tx st c t k = (
  if_cases (IsAnswer t) (not c.cal) (λ _. redirect_to-IsAnswer st t c.choice)
      (λ _. set_args-IsAnswer tx c t t.path t.rev k),
  (
    if_cases (IsAnswer t) (not c.cal) (λ _. redirect_to-IsAnswer st t c.choice)
        (λ _. del_args-IsAnswer tx c t t.path t.rev k),
    (
      if_cases (IsAnswer t) (not c.cal) (λ _. redirect_to-IsAnswer st t c.choice)
          (λ _. rw k (_, refl)),
      (
        (_, refl),
        (
          with_getter-IsAnswerOrWaits st t _ (λ g. got-IsAnswer t (get_path (get_string t.path) g)),
          with_getter-IsAnswerOrWaits st t (stat_reply t) (λ g. (_, refl)),
        ),
      ),
    ),
  ),
)
