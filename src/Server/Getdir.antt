-- ===== src/Server/Getdir.antt =====
-- `getdir` of src/pkg/server/server.go: the entries of a directory, in pages.
pub mod Pages
use doozer.Common.{
  ℕ, zero, suc, ◌≤◌, ◌<◌, ◌+◌, ℤ, pos, pos_part, ◌+₃₂◌, ltb_ℤ, leb_ℤ, eqb_ℤ, ◌<ℤ◌, ◌≤ℤ◌, ap, sym,
  Bool-cases, inl, inr, ◌∙◌, wrap32, ◌+ℤ◌, ◌^◌, ◌-ℤ◌, ◌-◌, ltb, Bool, true, false, not, Bytes, List,
  [], ◌∷◌, ◌++◌, map, length, Option, none, some, if◌then◌else◌, if_cases, ◌≡◌, refl, arith,
}
use doozer.Store.Node.{Node, missing, dir, get_path}
use doozer.Server.Request.{
  T, empty, error_code, Reply, respond, answer, valid_flag, done_flag, not_dir, no_ent,
}
use doozer.Server.Handlers.{get_string, get_int}
use doozer.Server.Watch.{burn, is_cancelled}

abbrev pub page_limit : ℤ → ℕ → ℤ
page_limit limit n = if leb_ℤ limit (pos 0) then pos n else limit

abbrev pub page_offset : ℤ → ℤ
page_offset offset = if ltb_ℤ offset (pos 0) then pos 0 else offset

abbrev pub capped : ℤ → ℕ → ℤ
capped end n = if ltb_ℤ (pos n) end then pos n else end

-- The first and the last bound of the page. An int has 32 bits, as in the compilers of this code.
abbrev pub page_bounds : ℤ → ℤ → ℕ → ℤ × ℤ
page_bounds offset limit n =
    (page_offset offset, capped (page_offset offset +₃₂ page_limit limit n) n)

abbrev pub take {ℓ} : {A : Type ℓ} → ℕ → List A → List A
take zero xs = []
take (suc n) [] = []
take (suc n) (x ∷ xs) = x ∷ take n xs

abbrev pub drop {ℓ} : {A : Type ℓ} → ℕ → List A → List A
drop zero xs = xs
drop (suc n) [] = []
drop (suc n) (x ∷ xs) = drop n xs

-- `ents[lo:hi]`; `none` is the panic of a slice out of bounds.
abbrev pub slice : List Bytes → ℤ × ℤ → Option (List Bytes)
slice xs (lo, hi) =
    if ltb_ℤ lo (pos 0)
    then none
    else if ltb_ℤ hi lo
    then none
    else if ltb_ℤ (pos (length xs)) hi
    then none
    else some (drop (pos_part lo) (take (pos_part hi) xs))

abbrev pub entry_reply : T → Bytes → Reply
entry_reply t e = respond t valid_flag (record empty { path = some e })

-- How the loop over the entries of a page ends: with the last reply, or by a cancel, which closes the
-- transaction `*t.Tag` without a reply, and panics when the request has no tag.
pub data End : Type 0 where
  completes : End
  closes : ℤ → End
  panics : End

abbrev pub stopped : Option ℤ → End
stopped none = panics
stopped (some tag) = closes tag

-- `fuse` is the number of entries before the cancel is seen, if it is.
unfoldable pub list_entries : T → Option ℕ → List Bytes → List Reply × End
list_entries t fuse [] = (respond t done_flag empty ∷ [], completes)
list_entries t fuse (e ∷ es) =
    let (more, end) = list_entries t (burn fuse) es in
    if is_cancelled fuse then ([], stopped t.tag) else (entry_reply t e ∷ more, end)

abbrev pub page : T → Option ℕ → Option (List Bytes) → Option (List Reply × End)
page t fuse none = none
page t fuse (some es) = some (list_entries t fuse es)

-- The body of the handler, for the tree of its getter. `none` is a panic of the slice.
unfoldable pub getdir : Node → T → Option ℕ → Option (List Reply × End)
unfolding get_path ◌+₃₂◌ list_entries
getdir g t fuse =
    let (ents, rev) = get_path (get_string t.path) g in
    if eqb_ℤ rev missing
    then some (answer t (error_code no_ent), completes)
    else if not (eqb_ℤ rev dir)
    then some (answer t (error_code not_dir), completes)
    else page t fuse (slice ents (page_bounds (get_int t.offset) (get_int t.limit) (length ents)))
