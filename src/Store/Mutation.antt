-- ===== src/Store/Mutation.antt =====
-- Mutations as texts: `EncodeSet`, `EncodeDel` and `decode` of src/pkg/store/store.go.
pub mod Decode
pub mod RoundTrip
use doozer.Common.{
  ℕ, ℤ, pos, Bool, true, false, ◌==◌, Bytes, codes, List, [], ◌∷◌, ◌++◌, Option, none, some,
  if◌then◌else◌, ◌≡◌, refl, arith,
}
use doozer.Store.Error.{Error, bad_mutation, num_error}
use doozer.Store.Path.{check_path}
use doozer.Store.Number.{itoa64, atoi64}

-- A result with the error beside it. The values beside an error are those that the code leaves.
pub record Encoded : Type 0 where
  pub mutation : Bytes
  pub err : Option Error

unfoldable pub encode_set : Bytes → Bytes → ℤ → Encoded
unfolding itoa64
encode_set path body rev = elim (check_path path) [
  | none ↦ record {
    mutation = itoa64 rev ++ (codes ":" ++ (path ++ (codes "=" ++ body)));
    err = none;
  }
  | some e ↦ record { mutation = []; err = some e }
]

-- The error of a bad path is bound to a new variable, and the bare `return` gives the results, which
-- are still empty: no error.
unfoldable pub encode_del : Bytes → ℤ → Encoded
unfolding itoa64
encode_del path rev = elim (check_path path) [
  | none ↦ record { mutation = itoa64 rev ++ (codes ":" ++ path); err = none }
  | some e ↦ record { mutation = []; err = none }
]

-- `strings.Split(s, sep, 2)` for a one-byte separator: the parts round its first occurrence, or none
-- if there is no occurrence and the whole text is the only part.
abbrev pub prepend : ℕ → Option (Bytes × Bytes) → Option (Bytes × Bytes)
prepend c none = none
prepend c (some (l, r)) = some (c ∷ l, r)

unfoldable pub cut : ℕ → Bytes → Option (Bytes × Bytes)
cut sep [] = none
cut sep (c ∷ s) = let rest = cut sep s in if c == sep then some ([], s) else prepend c rest

pub record Decoded : Type 0 where
  pub path : Bytes
  pub v : Bytes
  pub rev : ℤ
  pub keep : Bool
  pub err : Option Error

abbrev pub failed : ℤ → Error → Decoded
failed rev e = record { path = []; v = []; rev = rev; keep = false; err = some e }

-- The part after the revision: a path, and a body if there is a `=`.
abbrev pub checked : ℤ → Bytes → Bytes → Bool → Decoded
checked rev path v keep = elim (check_path path) [
  | none ↦ record { path = path; v = v; rev = rev; keep = keep; err = none }
  | some e ↦ failed rev e
]

abbrev pub decode_kv : ℤ → Bytes → Decoded
decode_kv rev kv = elim (cut b'=' kv) [
  | none ↦ checked rev kv [] false
  | some (path, body) ↦ checked rev path body true
]

abbrev pub decode_rev : Bytes → ℤ × Bool → Bytes → Decoded
decode_rev text (rev, true) kv = failed rev (num_error text)
decode_rev text (rev, false) kv = decode_kv rev kv

unfoldable pub decode : Bytes → Decoded
unfolding cut atoi64
decode mutation = elim (cut b':' mutation) [
  | none ↦ failed (pos 0) bad_mutation
  | some (rev, kv) ↦ decode_rev rev (atoi64 rev) kv
]

-- `MustEncodeSet` and `MustEncodeDel`; `none` is a panic.
abbrev pub must : Encoded → Option Bytes
must e = elim e.err [ none ↦ some e.mutation | some x ↦ none ]

unfoldable pub must_encode_set : Bytes → Bytes → ℤ → Option Bytes
unfolding encode_set
must_encode_set path body rev = must (encode_set path body rev)

unfoldable pub must_encode_del : Bytes → ℤ → Option Bytes
unfolding encode_del
must_encode_del path rev = must (encode_del path rev)
