-- ===== src/Client/Link/Order.antt =====
-- Lists in which a relation holds from each element to the later ones, and one element taken out.
use doozer.Common.{
  ℕ, zero, suc, List, [], ◌∷◌, ◌++◌, All, Option, none, some, to_list, In, here, there,
}
use doozer.Client.Link.{take_at, kept_before}

pub data Taken {ℓ} {A : Type ℓ} (x : A) : List A → List A → Type ℓ where
  now : {xs : List A} → Taken x (x ∷ xs) xs
  later : {y : A} {xs ys : List A} → Taken x xs ys → Taken x (y ∷ xs) (y ∷ ys)

module _ {ℓ} {A : Type ℓ} where
  pub take_at-Taken : (i : ℕ) (xs : List A) → All (λ r. Taken r.0 xs r.1) (to_list (take_at i xs))
  take_at-Taken i [] = tt
  take_at-Taken zero (x ∷ xs) = (now, tt)
  take_at-Taken (suc i) (x ∷ xs) = kept x xs (take_at i xs) (take_at-Taken i xs)
    where
      kept :
          (x : A) (xs : List A) (o : Option (A × List A))
          → All (λ r. Taken r.0 xs r.1) (to_list o)
          → All (λ r. Taken r.0 (x ∷ xs) r.1) (to_list (kept_before x o))
      kept x xs none h = tt
      kept x xs (some r) h = (later h.0, tt)

  pub Taken-append :
      {x : A} {xs ys : List A} (zs : List A) → Taken x xs ys → Taken x (xs ++ zs) (ys ++ zs)
  Taken-append zs now = now
  Taken-append zs (later k) = later (Taken-append zs k)

  module _ {κ} (P : A → Type κ) where
    pub All-append : (xs ys : List A) → All P xs → All P ys → All P (xs ++ ys)
    All-append [] ys h k = k
    All-append (x ∷ xs) ys h k = (h.0, All-append xs ys h.1 k)

    pub All-of : ((x : A) → P x) → (xs : List A) → All P xs
    All-of h [] = tt
    All-of h (x ∷ xs) = (h x, All-of h xs)

    pub All-from_In : (xs : List A) → ((x : A) → In x xs → P x) → All P xs
    All-from_In [] h = tt
    All-from_In (x ∷ xs) h = (h x here, All-from_In xs (λ y i. h y (there i)))

    pub All-split : (xs ys : List A) → All P (xs ++ ys) → All P xs × All P ys
    All-split [] ys h = (tt, h)
    All-split (x ∷ xs) ys h = let (a, b) = All-split xs ys h.1 in ((h.0, a), b)

    pub All-Taken : {x : A} {xs ys : List A} → Taken x xs ys → All P xs → P x × All P ys
    All-Taken now h = h
    All-Taken (later k) h = let (a, b) = All-Taken k h.1 in (a, (h.0, b))

  pub All-mapped {κ λ'} :
      {P : A → Type κ} {Q : A → Type λ'}
      → ((a : A) → P a → Q a)
      → (xs : List A) → All P xs
      → All Q xs
  All-mapped f [] h = tt
  All-mapped f (x ∷ xs) h = (f x h.0, All-mapped f xs h.1)

module _ {ℓ} {A : Type ℓ} (R : A → A → Type ℓ) where
  abbrev pub Apart : List A → Type ℓ
  Apart [] = Unit
  Apart (x ∷ xs) = All (R x) xs × Apart xs

  pub Apart-last : (xs : List A) (y : A) → Apart xs → All (λ x. R x y) xs → Apart (xs ++ y ∷ [])
  Apart-last [] y a h = (tt, tt)
  Apart-last (x ∷ xs) y (b, a) (h, hs) = (All-append (R x) xs _ b (h, tt), Apart-last xs y a hs)

  -- A copy of an element, `y`, that holds the relation to all.
  pub Apart-copy :
      (xs ss : List A) (y : A)
      → ((x : A) → All (R x) ss → R x y)
      → All (R y) ss
      → Apart (xs ++ ss)
      → Apart (xs ++ y ∷ ss)
  Apart-copy [] ss y c h a = (h, a)
  Apart-copy (x ∷ xs) ss y c h (b, a) =
      let (l, r) = All-split (R x) xs _ b in
      (All-append (R x) xs _ l (c x r, r), Apart-copy xs ss y c h a)

  pub Apart-Taken :
      {y : A} {ss rs : List A}
      → All (λ x. R x y → R y x) ss
      → Taken y ss rs
      → Apart ss
      → All (R y) rs × Apart rs
  Apart-Taken s now a = a
  Apart-Taken s (later {y = x} k) (b, a) =
      let (h, t) = Apart-Taken s.1 k a in let (p, q) = All-Taken (R x) k b in ((s.0 p, h), (q, t))

  -- An element that moves to the front of its part.
  pub Apart-move :
      (xs : List A) {y : A} {ss rs : List A}
      → All (λ x. R x y → R y x) ss
      → Taken y ss rs
      → Apart (xs ++ ss)
      → Apart (xs ++ y ∷ rs)
  Apart-move [] s k a = Apart-Taken s k a
  Apart-move (x ∷ xs) s k (b, a) =
      let (l, r) = All-split (R x) xs _ b in
      (All-append (R x) xs _ l (All-Taken (R x) k r), Apart-move xs s k a)
