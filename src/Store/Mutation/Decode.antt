-- ===== src/Store/Mutation/Decode.antt =====
-- What `decode` of src/pkg/store/store.go has checked when it reports no error.
use doozer.Common.{
  ℤ, Bool, true, false, Bytes, [], none, some, Option-cases, ◌≡◌, refl, ◌⊎◌, inl, inr,
}
use doozer.Store.Error.{Error}
use doozer.Store.Path.{check_path}
use doozer.Store.Number.{atoi64}
use doozer.Store.Mutation.{Decoded, checked, decode_kv, decode_rev, cut, decode}

abbrev pub PathOrError : Decoded → Type 0
PathOrError d = (check_path d.path ≡ none) ⊎ ((e : Error) × (d.err ≡ some e))

checked-PathOrError :
    (rev : ℤ) (path v : Bytes) (keep : Bool) → PathOrError (checked rev path v keep)
checked-PathOrError rev path v keep = elim (Option-cases (check_path path)) [
  | inl e ↦ rw (checked, e) (inl e)
  | inr (x, e) ↦ rw (checked, e) (inr (x, refl))
]

decode_kv-PathOrError : (rev : ℤ) (kv : Bytes) → PathOrError (decode_kv rev kv)
decode_kv-PathOrError rev kv = elim (Option-cases (cut b'=' kv)) [
  | inl e ↦ rw (decode_kv, e) (checked-PathOrError rev kv [] false)
  | inr ((l, r), e) ↦ rw (decode_kv, e) (checked-PathOrError rev l r true)
]

decode_rev-PathOrError :
    (text : Bytes) (r : ℤ × Bool) (kv : Bytes) → PathOrError (decode_rev text r kv)
decode_rev-PathOrError text (rev, true) kv = inr (_, refl)
decode_rev-PathOrError text (rev, false) kv = decode_kv-PathOrError rev kv

pub decode-PathOrError : (m : Bytes) → PathOrError (decode m)
unfolding decode
decode-PathOrError m = elim (Option-cases (cut b':' m)) [
  | inl e ↦ rw (decode, e) (inr (_, refl))
  | inr ((l, r), e) ↦ rw (decode, e) (decode_rev-PathOrError l (atoi64 l) r)
]
