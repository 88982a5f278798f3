-- ===== src/Store/Node/Lookup.antt =====
-- What a lookup finds after `set`: at the path, and at the paths that part from it.
use doozer.Common.{
  ℤ, ltb, Bool, true, false, false≢true, Bytes, bytes_eq, bytes_eq_iff, bytes_eq_refl, List, [],
  ◌∷◌, Option, none, some, if◌then◌else◌, Bool-cases, ◌≡◌, refl, sym, ap, ◌∙◌, ◌⊎◌, inl, inr, arith,
}
use doozer.Store.Node.{
  Node, Entries, node, nil, entry, value_of, entries_of, zero_node, find, insert, erase, count, at,
  child, put_entry, set, dir,
}

pub find-insert :
    (k j : Bytes) (n : Node) (ds : Entries)
    → find j (insert k n ds) ≡ (if bytes_eq k j then some n else find j ds)
unfolding find insert
find-insert k j n nil = refl
find-insert k j n (entry i m ds) =
    ground (arith, bytes_eq_iff k j, bytes_eq_iff i k, bytes_eq_iff i j, find-insert k j n ds)

pub find-erase :
    (k j : Bytes) (ds : Entries) → find j (erase k ds) ≡ (if bytes_eq k j then none else find j ds)
unfolding find erase
find-erase k j nil = ground arith
find-erase k j (entry i m ds) =
    ground (arith, bytes_eq_iff k j, bytes_eq_iff i k, bytes_eq_iff i j, find-erase k j ds)

pub find-put_entry_ne :
    (k j : Bytes) (r : Node × Bool) (ds : Entries)
    → bytes_eq k j ≡ false
    → find j (put_entry k r ds) ≡ find j ds
find-put_entry_ne k j (m, true) ds h = rw (find-insert k j m ds, h)
find-put_entry_ne k j (m, false) ds h = rw (find-erase k j ds, h)

pub find-put_entry_self :
    (k : Bytes) (r : Node × Bool) (ds : Entries)
    → find k (put_entry k r ds) ≡ (if r.1 then some r.0 else none)
find-put_entry_self k (m, true) ds = rw (find-insert k k m ds, bytes_eq_refl k)
find-put_entry_self k (m, false) ds = rw (find-erase k k ds, bytes_eq_refl k)

-- Two paths part: neither leads through the other.
pub data Apart : List Bytes → List Bytes → Type 0 where
  at_once : {a b : Bytes} {p q : List Bytes} → bytes_eq a b ≡ false → Apart (a ∷ p) (b ∷ q)
  below : {a : Bytes} {p q : List Bytes} → Apart p q → Apart (a ∷ p) (a ∷ q)

abbrev pub at_option : List Bytes → Option Node → Option Node
at_option q o = elim o [ none ↦ none | some m ↦ at q m ]

-- Below a missing entry there is nothing, as below the zero node.
below_either :
    (b : Bytes) (q : List Bytes) (o : Option Node)
    → at (b ∷ q) (elim o [ none ↦ zero_node | some m ↦ m ]) ≡ at_option (b ∷ q) o
unfolding at find
below_either b q none = refl
below_either b q (some m) = refl

at-child :
    (a b : Bytes) (q : List Bytes) (n : Node)
    → at (b ∷ q) (child a n) ≡ at_option (b ∷ q) (find a (entries_of n))
at-child a b q n = below_either b q (find a (entries_of n))

-- A directory that its parent drops has nothing left below it.
at-set_dropped :
    (c : Bytes) (p : List Bytes) (b : Bytes) (q : List Bytes) (v : Bytes) (rev : ℤ) (keep : Bool)
    (n : Node)
    → (set (c ∷ p) v rev keep n).1 ≡ false
    → at (b ∷ q) (set (c ∷ p) v rev keep n).0 ≡ none
unfolding at set
at-set_dropped c p b q v rev keep n =
    nothing_left (put_entry c (set p v rev keep (child c n)) (entries_of n))
  where
    nothing_left :
        (ds : Entries) → ltb 0 (count ds) ≡ false → at (b ∷ q) (node (value_of n) dir ds) ≡ none
    nothing_left nil h = refl
    nothing_left (entry k m ds) h = absurd (ground arith)

-- One level of the recursion, at paths that are longer.
at-set-level :
    (a c b : Bytes) (p q : List Bytes) (v : Bytes) (rev : ℤ) (keep : Bool) (n : Node)
    → at (b ∷ q) (set (c ∷ p) v rev keep (child a n)).0 ≡ at (b ∷ q) (child a n)
    → at (a ∷ b ∷ q) (set (a ∷ c ∷ p) v rev keep n).0 ≡ at (a ∷ b ∷ q) n
unfolding at set
at-set-level a c b p q v rev keep n ih =
    ap (at_option (b ∷ q)) (find-put_entry_self a r (entries_of n))
    ∙ (kept_or_dropped (Bool-cases r.1) ∙ (ih ∙ at-child a b q n))
  where
    r : Node × Bool
    r = set (c ∷ p) v rev keep (child a n)

    kept_or_dropped :
        (r.1 ≡ true) ⊎ (r.1 ≡ false)
        → at_option (b ∷ q) (if r.1 then some r.0 else none) ≡ at (b ∷ q) r.0
    kept_or_dropped (inl e) = rw e
    kept_or_dropped (inr e) = rw e (sym (at-set_dropped c p b q v rev keep (child a n) e))

-- A change at one path is seen at no path that parts from it, whatever directories it prunes.
pub at-set-Apart :
    {p q : List Bytes} (v : Bytes) (rev : ℤ) (keep : Bool) (n : Node)
    → Apart p q
    → at q (set p v rev keep n).0 ≡ at q n
unfolding at set
at-set-Apart v rev keep n (at_once {a} {b} {p} {q} h) =
    ap (at_option q) (find-put_entry_ne a b (set p v rev keep (child a n)) (entries_of n) h)
at-set-Apart v rev keep n (below {a} (at_once {a = c} {b} {p} {q} h)) =
    at-set-level a c b p q v rev keep n
      (at-set-Apart v rev keep (child a n) (at_once {a = c} {b = b} {p = p} {q = q} h))
at-set-Apart v rev keep n (below {a} (below {a = c} {p} {q} h)) =
    at-set-level a c c p q v rev keep n
      (at-set-Apart v rev keep (child a n) (below {a = c} {p = p} {q = q} h))

-- What stood at a path, or the zero node.
abbrev pub at_or_zero : List Bytes → Node → Node
at_or_zero [] n = n
at_or_zero (a ∷ p) n = at_or_zero p (child a n)

kept-insert : (k : Bytes) (n : Node) (ds : Entries) → ltb 0 (count (insert k n ds)) ≡ true
unfolding insert
kept-insert k n nil = refl
kept-insert k n (entry j m ds) = ground arith

kept-put_entry :
    (k : Bytes) (r : Node × Bool) (ds : Entries)
    → r.1 ≡ true
    → ltb 0 (count (put_entry k r ds)) ≡ true
kept-put_entry k (m, true) ds h = kept-insert k m ds
kept-put_entry k (m, false) ds h = absurd (false≢true h)

-- A directory on the way to a node that is kept is kept.
pub kept-set : (p : List Bytes) (v : Bytes) (rev : ℤ) (n : Node) → (set p v rev true n).1 ≡ true
unfolding set
kept-set [] v rev n = refl
kept-set (a ∷ p) v rev n =
    kept-put_entry a (set p v rev true (child a n)) (entries_of n) (kept-set p v rev (child a n))

-- A node that is kept stands at its path, with the entries that stood there.
pub at-set_self :
    (p : List Bytes) (v : Bytes) (rev : ℤ) (n : Node)
    → at p (set p v rev true n).0 ≡ some (node v rev (entries_of (at_or_zero p n)))
unfolding at set
at-set_self [] v rev n = refl
at-set_self (a ∷ p) v rev n =
    ap (at_option p) (find-put_entry_self a r (entries_of n))
    ∙ (ap (λ k. at_option p (if k then some r.0 else none)) (kept-set p v rev (child a n))
        ∙ at-set_self p v rev (child a n))
  where
    r : Node × Bool
    r = set p v rev true (child a n)

none_either_way :
    (b : Bytes) (p : List Bytes) (r : Node × Bool)
    → at (b ∷ p) r.0 ≡ none
    → at_option (b ∷ p) (if r.1 then some r.0 else none) ≡ none
none_either_way b p (m, true) h = h
none_either_way b p (m, false) h = refl

-- A node that is not kept is gone, unless it is the root.
pub at-set_removed :
    (a : Bytes) (p : List Bytes) (v : Bytes) (rev : ℤ) (n : Node)
    → at (a ∷ p) (set (a ∷ p) v rev false n).0 ≡ none
unfolding at set
at-set_removed a [] v rev n =
    ap (at_option []) (find-put_entry_self a (set [] v rev false (child a n)) (entries_of n))
at-set_removed a (b ∷ p) v rev n =
    ap (at_option (b ∷ p)) (find-put_entry_self a r (entries_of n))
    ∙ none_either_way b p r (at-set_removed b p v rev (child a n))
  where
    r : Node × Bool
    r = set (b ∷ p) v rev false (child a n)
