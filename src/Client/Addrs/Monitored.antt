-- ===== src/Client/Addrs/Monitored.antt =====
-- The addresses that a client keeps, in `monitorAddrs` and `run` of src/pkg/client/client.go.
use doozer.Common.{
  ℕ, Bool, true, false, Bytes, bytes_eq, bytes_eq_iff, bytes_key, List, [], ◌∷◌, Option, none, some,
  lookup, insert, lookup-insert, lookup-inserted, lookup-erase, All, In, here, there, In-cons,
  false≢true, if_cases, ◌≡◌, ◌≢◌, refl, sym, ap, ◌∙◌, ◌⊎◌, inl, inr,
}
use doozer.Client.Addrs.{
  Monitor, add, remove, Input, node_addr, cal_entry, or_empty, addr_path, on_cal, observe,
  observe_all, without, connect, Pool, closed, pool_turn,
}

-- An input that is not an event of the CAL at `path`.
abbrev pub Elsewhere : Bytes → Input → Type 0
Elsewhere path (node_addr s) = Unit
Elsewhere path (cal_entry s) = path ≢ s.path

on_cal-keeps :
    (path p body : Bytes) (m : Monitor)
    → path ≢ p
    → lookup path (on_cal p body m).0.cal ≡ lookup path m.cal
unfolding on_cal
on_cal-keeps path p [] m n =
    lookup-erase p path m.cal
    ∙ if_cases (λ o. o ≡ lookup path m.cal) (bytes_eq p path)
        (λ e. absurd (n (sym ((bytes_eq_iff p path).0 e)))) (λ e. refl)
on_cal-keeps path p (b ∷ sid) m n =
    lookup-insert p path (or_empty (lookup (addr_path (b ∷ sid)) m.addrs)) m.cal
    ∙ if_cases (λ o. o ≡ lookup path m.cal) (bytes_eq p path)
        (λ e. absurd (n (sym ((bytes_eq_iff p path).0 e)))) (λ e. refl)

observe-keeps :
    (path : Bytes) (i : Input) (m : Monitor)
    → Elsewhere path i
    → lookup path (observe m i).0.cal ≡ lookup path m.cal
unfolding observe
observe-keeps path (node_addr s) m n = refl
observe-keeps path (cal_entry s) m n = on_cal-keeps path s.path s.body m n

observe_all-keeps :
    (path : Bytes) (is : List Input) (m : Monitor)
    → All (Elsewhere path) is
    → lookup path (observe_all m is).cal ≡ lookup path m.cal
unfolding observe_all
observe_all-keeps path [] m h = refl
observe_all-keeps path (i ∷ is) m (n, h) =
    observe_all-keeps path is (observe m i).0 h ∙ observe-keeps path i m n

-- The address that is removed when the entry of a CAL becomes empty is the address that was added
-- when the entry got its node, whatever the other entries and the addresses of the nodes did between.
pub on_cal-removes :
    (m : Monitor) (path : Bytes) (b : ℕ) (sid : Bytes) (is : List Input)
    → All (Elsewhere path) is
    → (addr : Bytes) × ((on_cal path (b ∷ sid) m).1 ≡ add addr ∷ [])
      × ((on_cal path [] (observe_all (on_cal path (b ∷ sid) m).0 is)).1 ≡ remove addr ∷ [])
unfolding on_cal
on_cal-removes m path b sid is h =
    let addr = or_empty (lookup (addr_path (b ∷ sid)) m.addrs) in
    let m' = record m { cal = insert path addr m.cal } in
    (
      addr,
      refl,
      ap (λ o. remove (or_empty o) ∷ [])
          (observe_all-keeps path is m' h ∙ lookup-inserted path addr m.cal),
    )

without-In : (a x : Bytes) (xs : List Bytes) → In x (without a xs) → In x xs × (x ≢ a)
without-In a x [] = λ i. elim i [ ]
without-In a x (y ∷ xs) =
    if_cases (λ (l : List Bytes). In x l → In x (y ∷ xs) × (x ≢ a)) (bytes_eq a y)
      (λ e i. let (j, n) = without-In a x xs i in (there j, n))
      (λ e i. elim (In-cons i) [
        | inl f ↦ (rw f here, λ g. false≢true (sym e ∙ (bytes_eq_iff a y).1 (sym g ∙ f)))
        | inr j ↦ let (k, n) = without-In a x xs j in (there k, n)
      ])

-- What `connect` gives for the addresses `al`.
Dialed : (Bytes → Bool) → List Bytes → Option Bytes × List Bytes → Type 0
Dialed dial al (c, left) =
    ((c ≡ none) × ((left ≡ []) × All (λ a. dial a ≡ false) al))
    ⊎ ((a : Bytes) × (c ≡ some a) × (dial a ≡ true) × In a al)

connect-Dialed : (dial : Bytes → Bool) (al : List Bytes) → Dialed dial al (connect dial al)
unfolding connect Dialed
connect-Dialed dial [] = inl (refl, (refl, tt))
connect-Dialed dial (a ∷ al) =
    if_cases (Dialed dial (a ∷ al)) (dial a) (λ e. inr (a, refl, e, here))
      (λ e. elim (connect-Dialed dial al) [
        | inl (f, (g, h)) ↦ inl (f, (g, (e, h)))
        | inr (b, f, g, i) ↦ inr (b, f, g, there i)
      ])

-- When the connection of a client is closed, the next one is to an address that was known, that is not
-- the closed one, and that answers; or there is none, and then no address is left, since no other
-- known address answers.
pub pool_turn-reconnects :
    (p : Pool) (c : Bytes) (dial : Bytes → Bool)
    → p.current ≡ some c
    → (((pool_turn p (closed dial)).current ≡ none)
        × (((pool_turn p (closed dial)).known ≡ [])
            × All (λ a. dial a ≡ false) (without c p.known)))
      ⊎ ((a : Bytes) × ((pool_turn p (closed dial)).current ≡ some a)
          × (dial a ≡ true)
          × (In a p.known × (a ≢ c)))
unfolding pool_turn Dialed
pool_turn-reconnects p c dial h = rw h (elim (connect-Dialed dial (without c p.known)) [
  | inl q ↦ inl q
  | inr (a, f, g, i) ↦ inr (a, f, g, without-In c a p.known i)
])
