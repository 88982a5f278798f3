-- ===== src/Store/Process/Consistent.antt =====
-- Two stores that are fed from one log, in any order, are equal where they are at one position.
use doozer.Common.{
  ℤ, pos_part, parts_of_eq, Bool, Bytes, List, [], ◌∷◌, All, some, ◌≡◌, sym, ap, ◌∙◌, arith,
}
use doozer.Store.Error.{Texts}
use doozer.Store.Event.{Event}
use doozer.Store.Process.{Store, Watch, Input, new, process}
use doozer.Store.Process.Replay.{Replayed, Ordered, replay, event_at, new-Replayed, step-Replayed}

abbrev pub OrderedInput : (ℤ → Bytes) → Input × (Watch → Bool) → Type 0
OrderedInput value (i, stopped) = Ordered value i

module _ (t : Texts) (value : ℤ → Bytes) (matches : Bytes → Bytes → Bool) where
  process_from-Replayed :
      (is : List (Input × (Watch → Bool))) {s : Store}
      → All (OrderedInput value) is
      → Replayed t value s
      → Replayed t value (process t matches s is)
  unfolding process
  process_from-Replayed [] h r = r
  process_from-Replayed ((i, stopped) ∷ is) (h, hs) r =
      process_from-Replayed is hs (step-Replayed t value matches stopped i h r)

-- Let the operations that a new store receives be taken from one log, in any order, with repetitions
-- and among watches and requests to clean, but without a flush. Then its tree and its position are
-- those of a replay of a beginning of the log, and each event that it keeps is that of the replay.
pub process-Replayed :
    (t : Texts) (value : ℤ → Bytes) (matches : Bytes → Bytes → Bool)
    (is : List (Input × (Watch → Bool)))
    → All (OrderedInput value) is
    → Replayed t value (process t matches new is)
process-Replayed t value matches is h =
    process_from-Replayed t value matches is h (new-Replayed t value)

-- Two stores that receive operations of one log, each in its own order, without a flush, have equal
-- trees whenever they are at the same position.
pub same_ver-same_root :
    (t : Texts) (value : ℤ → Bytes) (matches matches' : Bytes → Bytes → Bool)
    (is is' : List (Input × (Watch → Bool)))
    → All (OrderedInput value) is
    → All (OrderedInput value) is'
    → (process t matches new is).ver ≡ (process t matches' new is').ver
    → (process t matches new is).root ≡ (process t matches' new is').root
same_ver-same_root t value matches matches' is is' h h' e =
    let r = process-Replayed t value matches is h in
    let r' = process-Replayed t value matches' is' h' in
    let same : r.last ≡ r'.last = ap pos_part (sym r.ver_eq ∙ (e ∙ r'.ver_eq)) in
    r.root_eq ∙ (ap (replay t value) same ∙ sym r'.root_eq)

-- Two such stores that both keep an event for a position keep the same one.
pub same_log :
    (t : Texts) (value : ℤ → Bytes) (matches matches' : Bytes → Bytes → Bool)
    (is is' : List (Input × (Watch → Bool))) (p : ℤ) (e e' : Event)
    → All (OrderedInput value) is
    → All (OrderedInput value) is'
    → (process t matches new is).log p ≡ some e
    → (process t matches' new is').log p ≡ some e'
    → e ≡ e'
same_log t value matches matches' is is' p e e' h h' l l' =
    let (j, k, m) = (process-Replayed t value matches is h).genuine p e l in
    let (j', k', m') = (process-Replayed t value matches' is' h').genuine p e' l' in
    let same : j ≡ j' = omega (arith, parts_of_eq (sym k ∙ k')) in
    m ∙ (ap (event_at t value) same ∙ sym m')
