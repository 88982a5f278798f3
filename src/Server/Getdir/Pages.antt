-- ===== src/Server/Getdir/Pages.antt =====
-- The pages that `getdir` of src/pkg/server/server.go answers with.
use doozer.Common.{
  ℕ, zero, suc, ◌≤◌, ◌<◌, ◌+◌, ℤ, pos, ◌+₃₂◌, ltb_ℤ, ◌<ℤ◌, ◌≤ℤ◌, ap, sym, Bool-cases, inl, inr, ◌∙◌,
  wrap32, ◌+ℤ◌, ◌^◌, ◌-ℤ◌, ◌-◌, ltb, Bool, true, false, Bytes, List, [], ◌∷◌, ◌++◌, map, length,
  Option, none, some, if◌then◌else◌, if_cases, ◌≡◌, refl, arith,
}
use doozer.Store.Node.{Node, dir, get_path}
use doozer.Server.Request.{T, empty, Reply, respond, done_flag}
use doozer.Server.Handlers.{get_string, get_int}
use doozer.Server.Getdir.{
  End, completes, stopped, page_limit, page_offset, capped, page_bounds, take, drop, slice,
  entry_reply, list_entries, page, getdir,
}

slice-in :
    (xs : List Bytes) (lo hi : ℕ)
    → lo ≤ hi
    → hi ≤ length xs
    → slice xs (pos lo, pos hi) ≡ some (drop lo (take hi xs))
slice-in xs lo hi h k = ground arith

slice-out : (xs : List Bytes) (lo hi : ℤ) → hi <ℤ lo → slice xs (lo, hi) ≡ none
slice-out xs lo hi h = ground arith

take_all : (n : ℕ) (xs : List Bytes) → length xs ≤ n → take n xs ≡ xs
take_all zero [] h = refl
take_all zero (x ∷ xs) h = absurd (omega (arith, h))
take_all (suc n) [] h = refl
take_all (suc n) (x ∷ xs) h = ap (λ ys. x ∷ ys) (take_all n xs (omega (arith, h)))

sum_lem : (o l : ℕ) → o + l < 2 ^ 31 → pos o +₃₂ pos l ≡ pos (o + l)
unfolding ◌+₃₂◌ wrap32 ◌+ℤ◌
sum_lem o l h = ground arith

wraps_lem : (o l : ℕ) → o < 2 ^ 31 → l < 2 ^ 31 → 2 ^ 31 ≤ o + l → (pos o +₃₂ pos l) <ℤ pos 0
unfolding ◌+₃₂◌ wrap32 ◌+ℤ◌ ◌-ℤ◌
wraps_lem o l h k b = ground arith

-- The last bound is never past the last entry.
bounded : (end : ℤ) (n : ℕ) → capped end n ≤ℤ pos n
bounded end n =
    if_cases (λ e. e ≤ℤ pos n) (ltb_ℤ (pos n) end) (λ e. omega arith) (λ e. ground arith)

offset_lem : (o : ℕ) → page_offset (pos o) ≡ pos o
offset_lem o = ground arith

limit_lem : (l n : ℕ) → 0 < l → page_limit (pos l) n ≡ pos l
limit_lem l n h = ground arith

slice-past :
    (xs : List Bytes) (offset : ℕ) (limit : ℤ)
    → length xs < offset
    → slice xs (page_bounds (pos offset) limit (length xs)) ≡ none
slice-past xs offset limit h =
    let n = length xs in
    let end = capped (pos offset +₃₂ page_limit limit n) n in
    ap (λ o. slice xs (o, capped (o +₃₂ page_limit limit n) n)) (offset_lem offset)
    ∙ slice-out xs (pos offset) end
        (omega (arith, bounded (pos offset +₃₂ page_limit limit n) n, h))

slice-capped :
    (xs : List Bytes) (lo hi : ℕ)
    → lo ≤ length xs
    → lo ≤ hi
    → slice xs (pos lo, capped (pos hi) (length xs)) ≡ some (drop lo (take hi xs))
slice-capped xs lo hi h k = elim (Bool-cases (ltb_ℤ (pos (length xs)) (pos hi))) [
  | inl e ↦
      let lt : length xs ≤ hi = ground arith in
      ap (λ b. slice xs (pos lo, if b then pos (length xs) else pos hi)) e
      ∙ (slice-in xs lo (length xs) h (omega arith)
          ∙ ap (λ ys. some (drop lo ys))
              (take_all (length xs) xs (omega arith) ∙ sym (take_all hi xs lt)))
  | inr e ↦
      let ge : hi ≤ length xs = ground arith in
      ap (λ b. slice xs (pos lo, if b then pos (length xs) else pos hi)) e ∙ slice-in xs lo hi k ge
]

slice-page :
    (xs : List Bytes) (offset limit : ℕ)
    → offset ≤ length xs
    → 0 < limit
    → offset + limit < 2 ^ 31
    → slice xs (page_bounds (pos offset) (pos limit) (length xs))
      ≡ some (drop offset (take (offset + limit) xs))
slice-page xs offset limit h b c =
    let n = length xs in
    ap (λ o. slice xs (o, capped (o +₃₂ page_limit (pos limit) n) n)) (offset_lem offset)
    ∙ (ap (λ l. slice xs (pos offset, capped (pos offset +₃₂ l) n)) (limit_lem limit n b)
        ∙ (ap (λ e. slice xs (pos offset, capped e n)) (sum_lem offset limit c)
            ∙ slice-capped xs offset (offset + limit) h (omega arith)))

slice-wraps :
    (xs : List Bytes) (offset limit : ℕ)
    → offset < 2 ^ 31
    → limit < 2 ^ 31
    → 2 ^ 31 ≤ offset + limit
    → slice xs (page_bounds (pos offset) (pos limit) (length xs)) ≡ none
slice-wraps xs offset limit a b c =
    let n = length xs in
    let end = pos offset +₃₂ pos limit in
    ap (λ o. slice xs (o, capped (o +₃₂ page_limit (pos limit) n) n)) (offset_lem offset)
    ∙ (ap (λ l. slice xs (pos offset, capped (pos offset +₃₂ l) n))
          (limit_lem limit n (omega (arith, a, c)))
        ∙ (ap (λ e. slice xs (pos offset, e)) (negative end n (wraps_lem offset limit a b c))
            ∙ slice-out xs (pos offset) end (omega (arith, wraps_lem offset limit a b c))))
  where
    negative : (end : ℤ) (n : ℕ) → end <ℤ pos 0 → capped end n ≡ end
    negative end n h =
        if_cases (λ e. e ≡ end) (ltb_ℤ (pos n) end)
          (λ e. let g : pos n <ℤ end = ground arith in absurd (omega (arith, g, h))) (λ e. refl)

module _ (t : T) where
  all_replies : List Bytes → List Reply × End
  all_replies es = (map (entry_reply t) es ++ respond t done_flag empty ∷ [], completes)

  list_entries-all : (es : List Bytes) → list_entries t none es ≡ all_replies es
  unfolding list_entries all_replies map
  list_entries-all [] = refl
  list_entries-all (e ∷ es) = rw (list_entries-all es) refl

  list_entries-cancelled :
      (k : ℕ) (es : List Bytes)
      → list_entries t (some k) es ≡ (
          if ltb k (length es)
          then (map (entry_reply t) (take k es), stopped t.tag)
          else all_replies es)
  unfolding list_entries all_replies map
  list_entries-cancelled k [] = let e : ltb k 0 ≡ false = ground arith in rw e refl
  list_entries-cancelled zero (e ∷ es) =
      let h : ltb 0 (suc (length es)) ≡ true = ground arith in rw h refl
  list_entries-cancelled (suc k) (e ∷ es) =
      let h : ltb (suc k) (suc (length es)) ≡ ltb k (length es) = ground arith in
      let r = all_replies es in
      let pred : suc k - 1 ≡ k = omega arith in
      ap (λ j. (entry_reply t e ∷ (list_entries t (some j) es).0, (list_entries t (some j) es).1))
        pred
      ∙ (ap (λ (l : List Reply × End). (entry_reply t e ∷ l.0, l.1)) (list_entries-cancelled k es)
          ∙ (in_both (ltb k (length es))
              ∙ ap
                  (λ b.
                    if b
                    then (map (entry_reply t) (take (suc k) (e ∷ es)), stopped t.tag)
                    else all_replies (e ∷ es))
                  (sym h)))
    where
      in_both :
          (b : Bool)
          → ◌≡◌ {A = List Reply × End}
              (
                entry_reply t e
                    ∷ (if b
                        then (map (entry_reply t) (take k es), stopped t.tag)
                        else all_replies es).0,
                (if b then (map (entry_reply t) (take k es), stopped t.tag) else all_replies es).1,
              )
              (if b
                then (map (entry_reply t) (take (suc k) (e ∷ es)), stopped t.tag)
                else all_replies (e ∷ es))
      in_both true = refl
      in_both false = refl

module _ (g : Node) (t : T) (ents : List Bytes)
    (h : get_path (get_string t.path) g ≡ (ents, dir)) where
  directory :
      (fuse : Option ℕ)
      → getdir g t fuse
        ≡ page t fuse (slice ents (page_bounds (get_int t.offset) (get_int t.limit) (length ents)))
  unfolding getdir
  directory fuse = rw h

  sliced :
      (fuse : Option ℕ) (offset limit : ℤ) {r : Option (List Bytes)}
      → t.offset ≡ some offset
      → t.limit ≡ some limit
      → slice ents (page_bounds offset limit (length ents)) ≡ r
      → getdir g t fuse ≡ page t fuse r
  sliced fuse offset limit eo el e =
      directory fuse
      ∙ (ap
            (λ o.
              page t fuse (slice ents (page_bounds (get_int o) (get_int t.limit) (length ents))))
            eo
          ∙ (ap (λ l. page t fuse (slice ents (page_bounds offset (get_int l) (length ents)))) el
              ∙ ap (page t fuse) e))

-- A request for a page of a directory is answered with the entries of that page, in the order of the
-- listing, each in a reply of its own, and one reply that ends them. When a cancel is seen before an
-- entry of the page, the answer ends before it without a further reply, and the transaction of its tag is closed. The
-- offset is not past the last entry, the limit is positive, and their sum is an int32.
pub getdir-page :
    (g : Node) (t : T) (ents : List Bytes) (offset limit k : ℕ)
    → get_path (get_string t.path) g ≡ (ents, dir)
    → t.offset ≡ some (pos offset)
    → t.limit ≡ some (pos limit)
    → offset ≤ length ents
    → 0 < limit
    → offset + limit < 2 ^ 31
    → (getdir g t none
        ≡ some (
          map (entry_reply t) (drop offset (take (offset + limit) ents))
              ++ respond t done_flag empty ∷ [],
          completes,
        ))
      × (getdir g t (some k)
          ≡ some (
              if ltb k (length (drop offset (take (offset + limit) ents)))
              then (
                map (entry_reply t) (take k (drop offset (take (offset + limit) ents))),
                stopped t.tag,
              )
              else (
                map (entry_reply t) (drop offset (take (offset + limit) ents))
                    ++ respond t done_flag empty ∷ [],
                completes,
              )))
unfolding all_replies
getdir-page g t ents offset limit k h eo el a b c =
    let es = drop offset (take (offset + limit) ents) in
    let e = slice-page ents offset limit a b c in
    (
      sliced g t ents h none (pos offset) (pos limit) eo el e ∙ ap some (list_entries-all t es),
      sliced g t ents h (some k) (pos offset) (pos limit) eo el e
          ∙ ap some (list_entries-cancelled t k es),
    )

-- A request for a page of a directory whose offset is past the last entry slices out of bounds.
pub getdir-past :
    (g : Node) (t : T) (ents : List Bytes) (offset : ℕ) (fuse : Option ℕ)
    → get_path (get_string t.path) g ≡ (ents, dir)
    → t.offset ≡ some (pos offset)
    → length ents < offset
    → getdir g t fuse ≡ none
getdir-past g t ents offset fuse h eo a =
    directory g t ents h fuse
    ∙ (ap (λ o. page t fuse (slice ents (page_bounds (get_int o) (get_int t.limit) (length ents))))
          eo
        ∙ ap (page t fuse) (slice-past ents offset (get_int t.limit) a))

-- A request for a page of a directory whose offset and limit, both int32 and not negative, have a sum
-- that is not an int32 slices out of bounds, however many entries there are.
pub getdir-wraps :
    (g : Node) (t : T) (ents : List Bytes) (offset limit : ℕ) (fuse : Option ℕ)
    → get_path (get_string t.path) g ≡ (ents, dir)
    → t.offset ≡ some (pos offset)
    → t.limit ≡ some (pos limit)
    → offset < 2 ^ 31
    → limit < 2 ^ 31
    → 2 ^ 31 ≤ offset + limit
    → getdir g t fuse ≡ none
getdir-wraps g t ents offset limit fuse h eo el a b c =
    sliced g t ents h fuse (pos offset) (pos limit) eo el (slice-wraps ents offset limit a b c)
