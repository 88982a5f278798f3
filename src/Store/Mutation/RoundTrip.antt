-- ===== src/Store/Mutation/RoundTrip.antt =====
-- `decode` reads what `EncodeSet` and `EncodeDel` write.
use doozer.Common.{
  ℕ, ℤ, pos, negsuc, InInt64, ◌+◌, ◌==◌, Bool, true, false, Bytes, [], ◌∷◌, ◌++◌, All, none, some,
  ◌≡◌, refl, ap, ◌∙◌, arith,
}
use doozer.Store.Path.{check_path, is_path}
use doozer.Store.Path.Chars.{path-NoEquals}
use doozer.Store.Number.{digits, itoa64, atoi64}
use doozer.Store.Number.RoundTrip.{IsDigit, Starts, starts, digits-Starts, atoi64-itoa64}
use doozer.Store.Mutation.{encode_set, encode_del, cut, checked, decode_kv, decode_rev, decode}

-- A byte is not in a text.
abbrev Without : ℕ → Bytes → Type 0
Without sep s = All (λ c. (c == sep) ≡ false) s

-- The first separator ends the first part.
pub cut-append :
    (sep : ℕ) (s rest : Bytes) → Without sep s → cut sep (s ++ sep ∷ rest) ≡ some (s, rest)
unfolding cut
cut-append sep [] rest h = let e : (sep == sep) ≡ true = ground arith in rw e
cut-append sep (c ∷ s) rest (h, hs) = rw (h, cut-append sep s rest hs)

cut-none : (sep : ℕ) (s : Bytes) → Without sep s → cut sep s ≡ none
unfolding cut
cut-none sep [] h = refl
cut-none sep (c ∷ s) (h, hs) = rw (h, cut-none sep s hs)

digits-Without : (s : Bytes) → All IsDigit s → Without b':' s
digits-Without [] h = tt
digits-Without (c ∷ s) (h, hs) = (ground arith, digits-Without s hs)

starts-Without : (s : Bytes) → Starts s → Without b':' s
starts-Without _ (starts c s d ds) = digits-Without (c ∷ s) (d, ds)

-- No number has a colon.
itoa64-Without : (a : ℤ) → Without b':' (itoa64 a)
unfolding itoa64
itoa64-Without (pos n) = starts-Without (digits 20 n []) (digits-Starts 19 n)
itoa64-Without (negsuc n) = (refl, starts-Without (digits 20 (n + 1) []) (digits-Starts 19 (n + 1)))

is_path-checked : (k : Bytes) → check_path k ≡ none → is_path k ≡ true
unfolding check_path
is_path-checked k h = ground arith

checked-path :
    (rev : ℤ) (path v : Bytes) (keep : Bool)
    → check_path path ≡ none
    → checked rev path v keep ≡ record { path = path; v = v; rev = rev; keep = keep; err = none }
checked-path rev path v keep h = rw (checked, h)

decode-cut : (m l r : Bytes) → cut b':' m ≡ some (l, r) → decode m ≡ decode_rev l (atoi64 l) r
unfolding decode
decode-cut m l r e = rw (decode, e)

decode-front :
    (rev : ℤ) (kv : Bytes) → InInt64 rev → decode (itoa64 rev ++ b':' ∷ kv) ≡ decode_kv rev kv
decode-front rev kv h =
    decode-cut (itoa64 rev ++ b':' ∷ kv) (itoa64 rev) kv
      (cut-append b':' (itoa64 rev) kv (itoa64-Without rev))
    ∙ ap (λ r. decode_rev (itoa64 rev) r kv) (atoi64-itoa64 rev h)

decode_kv-body :
    (rev : ℤ) (kv path body : Bytes)
    → cut b'=' kv ≡ some (path, body)
    → decode_kv rev kv ≡ checked rev path body true
decode_kv-body rev kv path body e = rw (decode_kv, e)

decode_kv-bare :
    (rev : ℤ) (kv : Bytes) → cut b'=' kv ≡ none → decode_kv rev kv ≡ checked rev kv [] false
decode_kv-bare rev kv e = rw (decode_kv, e)

encode_set-mutation :
    (path body : Bytes) (rev : ℤ)
    → check_path path ≡ none
    → encode_set path body rev
      ≡ record { mutation = itoa64 rev ++ b':' ∷ (path ++ b'=' ∷ body); err = none }
unfolding encode_set
encode_set-mutation path body rev h = rw (encode_set, h)

encode_del-mutation :
    (path : Bytes) (rev : ℤ)
    → check_path path ≡ none
    → encode_del path rev ≡ record { mutation = itoa64 rev ++ b':' ∷ path; err = none }
unfolding encode_del
encode_del-mutation path rev h = rw (encode_del, h)

-- A set mutation is read back: its path, its body, whatever bytes that has, and its revision. It
-- needs a path that passes the check and a revision that is an int64.
pub decode-encode_set :
    (path body : Bytes) (rev : ℤ)
    → check_path path ≡ none
    → InInt64 rev
    → decode (encode_set path body rev).mutation
      ≡ record { path = path; v = body; rev = rev; keep = true; err = none }
decode-encode_set path body rev h r =
    ap (λ e. decode e.mutation) (encode_set-mutation path body rev h)
    ∙ (decode-front rev (path ++ b'=' ∷ body) r
        ∙ (decode_kv-body rev (path ++ b'=' ∷ body) path body
              (cut-append b'=' path body (path-NoEquals path (is_path-checked path h)))
            ∙ checked-path rev path body true h))

-- A delete mutation is read back: its path, no body, and its revision. It needs a path that passes the
-- check and a revision that is an int64.
pub decode-encode_del :
    (path : Bytes) (rev : ℤ)
    → check_path path ≡ none
    → InInt64 rev
    → decode (encode_del path rev).mutation
      ≡ record { path = path; v = []; rev = rev; keep = false; err = none }
decode-encode_del path rev h r =
    ap (λ e. decode e.mutation) (encode_del-mutation path rev h)
    ∙ (decode-front rev path r
        ∙ (decode_kv-bare rev path
              (cut-none b'=' path (path-NoEquals path (is_path-checked path h)))
            ∙ checked-path rev path [] false h))
