-- ===== src/Store/Process/Watches.antt =====
-- What a new watch is told, in `process` and `notify` of src/pkg/store/store.go.
use doozer.Common.{
  ℕ, zero, suc, ◌+◌, ◌-◌, ◌^◌, ◌≤◌, ◌<◌, ℤ, pos, pos_part, ◌+₆₄◌, ◌-₆₄◌, ◌-ℤ◌, ◌+ℤ◌, wrap64, ◌≤ℤ◌,
  ltb_ℤ, leb_ℤ, eqb_ℤ, Bool, true, false, Bytes, List, [], ◌∷◌, ◌++◌, append_assoc, Option, some,
  if◌then◌else◌, ◌≡◌, refl, sym, ap, subst, ◌∙◌, arith,
}
use doozer.Store.Error.{Texts}
use doozer.Store.Event.{Event}
use doozer.Store.Process.{Store, Watch, or_zero_event, notify, catch_up, add_watch}

-- The events of `n` positions from `k` on.
abbrev pub events_from : (ℤ → Option Event) → ℕ → ℕ → List Event
events_from log zero k = []
events_from log (suc n) k = or_zero_event (log (pos k)) ∷ events_from log n (suc k)

-- The events whose path matches.
abbrev pub matching : (Bytes → Bool) → List Event → List Event
matching m [] = []
matching m (e ∷ es) = let rest = matching m es in if m e.path then e ∷ rest else rest

-- The notices of these events for a watch.
abbrev pub tell_all : Watch → List Event → List (Watch × Event)
tell_all w [] = []
tell_all w (e ∷ es) = (w, e) ∷ tell_all w es

before_last : (c : ℕ) → 0 < c → c < 2 ^ 63 → pos c -₆₄ pos 1 ≡ pos (c - 1)
unfolding ◌-₆₄◌ wrap64 ◌-ℤ◌
before_last c a b = ground arith

next_pos : (k : ℕ) → suc k < 2 ^ 63 → pos k +₆₄ pos 1 ≡ pos (suc k)
unfolding ◌+₆₄◌ wrap64 ◌+ℤ◌
next_pos k b = ground arith

append_empty : (ns : List (Watch × Event)) → ns ++ [] ≡ ns
append_empty [] = refl
append_empty (n ∷ ns) = ap (λ xs. n ∷ xs) (append_empty ns)

leb_lem : (k b : ℕ) → k ≤ b → leb_ℤ (pos k) (pos b) ≡ true
leb_lem k b h = ground (arith, h)

module _ (t : Texts) (matches : Bytes → Bytes → Bool) (stopped : Watch → Bool) (w : Watch) (a c : ℕ)
    (running : stopped w ≡ false) (from : w.from ≡ pos a) (to : w.to ≡ pos c)
    (small : c < 2 ^ 63) where
  told_of : Event → List (Watch × Event)
  told_of e = if matches w.glob e.path then (w, e) ∷ [] else []

  notify_one :
      (e : Event) (k : ℕ)
      → e.seqn ≡ pos k
      → a ≤ k
      → suc k < c
      → notify t matches stopped e (w ∷ []) ≡ (w ∷ [], told_of e)
  unfolding notify told_of
  notify_one e k q l u =
      let t₁ : leb_ℤ (pos c) (pos k) ≡ false = ground arith in
      let t₂ : eqb_ℤ (pos k) (pos (c - 1)) ≡ false = ground arith in
      let t₃ : ltb_ℤ (pos k) (pos a) ≡ false = ground arith in
      rw (running, to, q, t₁, before_last c (omega (arith, u)) small, t₂, from, t₃) refl

  -- The log from `a` on, to before `n`.
  Kept : ℕ → (ℤ → Option Event) → Type 0
  Kept n log = (p : ℕ) → a ≤ p → p < n → (e : Event) × (log (pos p) ≡ some e) × (e.seqn ≡ pos p)

  abbrev told_all : List Event → List (Watch × Event)
  told_all es = tell_all w (matching (matches w.glob) es)

  told_all-cons : (e : Event) (es : List Event) → told_all (e ∷ es) ≡ told_of e ++ told_all es
  unfolding told_of
  told_all-cons e es = both (matches w.glob e.path)
    where
      both :
          (b : Bool)
          → tell_all w
              (if b then e ∷ matching (matches w.glob) es else matching (matches w.glob) es)
            ≡ (if b then (w, e) ∷ [] else []) ++ tell_all w (matching (matches w.glob) es)
      both true = refl
      both false = refl

  seqn_at :
      (n : ℕ) (log : ℤ → Option Event) (k : ℕ)
      → Kept n log
      → a ≤ k
      → k < n
      → (or_zero_event (log (pos k))).seqn ≡ pos k
  unfolding Kept
  seqn_at n log k h l u = let (e, f, q) = h k l u in ap (λ o. (or_zero_event o).seqn) f ∙ q

  catch_up-told :
      (b f k : ℕ) (s : Store)
      → s.ver ≡ pos b
      → k + f ≡ suc b
      → a ≤ k
      → suc b < c
      → Kept (suc b) s.log
      → catch_up t matches stopped f (pos k) s (w ∷ [])
        ≡ (record s { notices = s.notices ++ told_all (events_from s.log f k) }, w ∷ [])
  unfolding catch_up
  catch_up-told b zero k s v q l u h =
      ap (λ ns. (record s { notices = ns }, w ∷ [])) (sym (append_empty s.notices))
  catch_up-told b (suc f) k s v q l u h =
      let e = or_zero_event (s.log (pos k)) in
      let go : List Watch × List (Watch × Event) → ℤ → Store × List Watch =
        λ r n. catch_up t matches stopped f n (record s { notices = s.notices ++ r.1 }) r.0 in
      let on : leb_ℤ (pos k) s.ver ≡ true = rw v (leb_lem k b (omega (arith, q))) in
      ap
        (λ x. if x then go (notify t matches stopped e (w ∷ [])) (pos k +₆₄ pos 1) else (s, w ∷ []))
        on
      ∙ (ap (λ r. go r (pos k +₆₄ pos 1))
            (notify_one e k (seqn_at (suc b) s.log k h l (omega (arith, q))) l
              (omega (arith, q, u)))
          ∙ (ap (λ n. go (w ∷ [], told_of e) n) (next_pos k (omega (arith, q, u, small)))
              ∙ (catch_up-told b f (suc k) (record s { notices = s.notices ++ told_of e }) v
                    (omega (arith, q)) (omega (arith, l)) u h
                  ∙ ap (λ ns. (record s { notices = ns }, w ∷ []))
                      (append_assoc s.notices (told_of e) (told_all (events_from s.log f (suc k)))
                        ∙ ap (λ ns. s.notices ++ ns)
                            (sym (told_all-cons e (events_from s.log f (suc k))))))))

span : (a b : ℕ) → a ≤ b → pos_part (pos b -ℤ pos a) + 1 ≡ suc b - a
unfolding ◌-ℤ◌
span a b h = ground arith

not_before : (h : ℤ) (a : ℕ) → h ≤ℤ pos a → ltb_ℤ (pos a) h ≡ false
not_before h a l = ground (arith, l)

-- A watch from a position that the store still has is told, in the order of the log, of every event from
-- that position to the store's whose path its glob matches, and of nothing else, and is then among the
-- watches. It has not been stopped, its last position is after the store's, and the log is complete
-- from the position on.
pub add_watch-told :
    (t : Texts) (matches : Bytes → Bytes → Bool) (stopped : Watch → Bool) (w : Watch) (s : Store)
    (a b c : ℕ)
    → stopped w ≡ false
    → w.from ≡ pos a
    → w.to ≡ pos c
    → c < 2 ^ 63
    → s.head ≤ℤ pos a
    → s.ver ≡ pos b
    → a ≤ b
    → suc b < c
    → ((p : ℕ) → a ≤ p → p < suc b → (e : Event) × (s.log (pos p) ≡ some e) × (e.seqn ≡ pos p))
    → add_watch t matches stopped w s ≡ record s {
      watches = s.watches ++ w ∷ [];
      notices =
          s.notices ++ tell_all w (matching (matches w.glob) (events_from s.log (suc b - a) a));
    }
unfolding add_watch Kept
add_watch-told t matches stopped w s a b c running from to small h v l u kept =
    let go : ℕ → ℤ → List Watch → Store = λ f n ws.
      let r = catch_up t matches stopped f n s ws in record r.0 { watches = r.0.watches ++ r.1 } in
    ap (λ x. go (pos_part (s.ver -ℤ w.from) + 1) w.from (if x then [] else w ∷ []))
      (subst (λ n. ltb_ℤ n s.head ≡ false) (sym from) (not_before s.head a h))
    ∙ (ap (λ n. go (pos_part (s.ver -ℤ n) + 1) n (w ∷ [])) from
        ∙ (ap (λ n. go (pos_part (n -ℤ pos a) + 1) (pos a) (w ∷ [])) v
            ∙ (ap (λ f. go f (pos a) (w ∷ [])) (span a b l)
                ∙ ap (λ (r : Store × List Watch). record r.0 { watches = r.0.watches ++ r.1 })
                    (catch_up-told t matches stopped w a c running from to small b (suc b - a) a s v
                      (omega (arith, l)) (omega arith) u kept))))
