-- ===== src/Store/Process/Notices.antt =====
-- Which watches `notify` of src/pkg/store/store.go tells of an event.
use doozer.Common.{
  ltb_ℤ, leb_ℤ, Bool, true, false, ◌&&◌, not, Bytes, List, [], ◌∷◌, In, here, there, In-cons,
  if_cases, ◌≡◌, ◌↔◌, ap, inl, inr, ◌⊎◌,
}
use doozer.Store.Error.{Texts}
use doozer.Store.Event.{Event}
use doozer.Store.Process.{Watch, notify}

module _ (t : Texts) (matches : Bytes → Bytes → Bool) (stopped : Watch → Bool) (e : Event) where
  -- A watch that has not been stopped, whose positions have the event's, and whose glob matches its path.
  pub record IsDue (w : Watch) : Type 0 where
    pub running : stopped w ≡ false
    pub before_end : leb_ℤ w.to e.seqn ≡ false
    pub matching : not (ltb_ℤ e.seqn w.from) && matches w.glob e.path ≡ true

  Told : List Watch → Watch → Type 0
  Told ws w = In w ws × IsDue w

  more : (w x : Watch) (ws : List Watch) → Told ws x → Told (w ∷ ws) x
  unfolding Told
  more w x ws (i, d) = (there i, d)

  head_or :
      (x w : Watch) (ns : List (Watch × Event)) → In (x, e) ((w, e) ∷ ns) → (x ≡ w) ⊎ In (x, e) ns
  head_or x w ns i = elim (In-cons {b = (w, e)} {xs = ns} i) [
    | inl f ↦ inl (ap (λ (n : Watch × Event). n.0) f)
    | inr j ↦ inr j
  ]

  sound : (x : Watch) (ws : List Watch) → In (x, e) (notify t matches stopped e ws).1 → Told ws x
  unfolding notify Told
  sound x [] = λ i. elim i [ ]
  sound x (w ∷ ws) =
      if_cases (λ (r : List Watch × List (Watch × Event)). In (x, e) r.1 → Told (w ∷ ws) x)
        (stopped w) (λ _ i. more w x ws (sound x ws i))
        (λ s.
          if_cases (λ (r : List Watch × List (Watch × Event)). In (x, e) r.1 → Told (w ∷ ws) x)
            (leb_ℤ w.to e.seqn) (λ _ i. more w x ws (sound x ws i))
            (λ l.
              if_cases (λ (ns : List (Watch × Event)). In (x, e) ns → Told (w ∷ ws) x)
                (not (ltb_ℤ e.seqn w.from) && matches w.glob e.path)
                (λ m i. elim (head_or x w _ i) [
                  | inl f ↦ rw f (here, record { running = s; before_end = l; matching = m })
                  | inr j ↦ more w x ws (sound x ws j)
                ])
                (λ _ i. more w x ws (sound x ws i))))

  complete : (x : Watch) (ws : List Watch) → Told ws x → In (x, e) (notify t matches stopped e ws).1
  unfolding notify Told
  complete x [] (i, d) = elim i [ ]
  complete x (w ∷ ws) (here, d) = rw (d.running, d.before_end, d.matching) here
  complete x (w ∷ ws) (there i, d) =
      if_cases (λ (r : List Watch × List (Watch × Event)). In (x, e) r.1) (stopped w)
        (λ _. complete x ws (i, d))
        (λ s.
          if_cases (λ (r : List Watch × List (Watch × Event)). In (x, e) r.1) (leb_ℤ w.to e.seqn)
            (λ _. complete x ws (i, d))
            (λ l.
              if_cases (λ (ns : List (Watch × Event)). In (x, e) ns)
                (not (ltb_ℤ e.seqn w.from) && matches w.glob e.path)
                (λ m. there (complete x ws (i, d))) (λ _. complete x ws (i, d))))

-- A watch is told of an event just when it is among the watches, it has not been stopped, the event's
-- position is one of its positions, and its glob matches the event's path.
pub notify-IsDue :
    (t : Texts) (matches : Bytes → Bytes → Bool) (stopped : Watch → Bool) (e : Event)
    (ws : List Watch) (w : Watch)
    → In (w, e) (notify t matches stopped e ws).1 ↔ (In w ws × IsDue t matches stopped e w)
unfolding Told
notify-IsDue t matches stopped e ws w =
    (sound t matches stopped e w ws, complete t matches stopped e w ws)
