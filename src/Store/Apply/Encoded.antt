-- ===== src/Store/Apply/Encoded.antt =====
-- `apply` of src/pkg/store/node.go on a mutation that `EncodeSet` has made.
use doozer.Common.{
  ℤ, true, false, Bool-cases, Bytes, bytes_eq, bytes_eq_sound, none, none≢some, InInt64, ◌≡◌, refl,
  sym, ap, subst, inl, inr,
}
use doozer.Store.Error.{Texts}
use doozer.Store.Path.{check_path}
use doozer.Store.Number.{atoi64}
use doozer.Store.Mutation.{Decoded, cut, encode_set, decode}
use doozer.Store.Mutation.RoundTrip.{decode-encode_set}
use doozer.Store.Node.{Node}
use doozer.Store.Apply.{nop_mutation, check, commit, apply}

-- What a set is decoded to.
abbrev pub wanted : Bytes → Bytes → ℤ → Decoded
wanted path body rev = record { path = path; v = body; rev = rev; keep = true; err = none }

nop-error : (decode nop_mutation).err ≡ none → ⊥
unfolding decode atoi64 cut
nop-error h = none≢some (sym h)

encoded_no_nop :
    (path body : Bytes) (rev : ℤ)
    → check_path path ≡ none
    → InInt64 rev
    → bytes_eq (encode_set path body rev).mutation nop_mutation ≡ false
encoded_no_nop path body rev h r =
    elim (Bool-cases (bytes_eq (encode_set path body rev).mutation nop_mutation)) [
      | inr e ↦ e
      | inl e ↦ absurd (
          nop-error (
            subst (λ m. (decode m).err ≡ none) (bytes_eq_sound _ _ e)
              (ap (λ (d : Decoded). d.err) (decode-encode_set path body rev h r))))
    ]

pub applied :
    (tx : Texts) (root : Node) (seqn : ℤ) (path body : Bytes) (rev : ℤ)
    → check_path path ≡ none
    → InInt64 rev
    → check root (wanted path body rev) ≡ none
    → apply tx root seqn (encode_set path body rev).mutation
      ≡ commit tx root seqn (encode_set path body rev).mutation (wanted path body rev) none
unfolding apply
applied tx root seqn path body rev h r c =
    rw (encoded_no_nop path body rev h r, decode-encode_set path body rev h r, c) refl

pub encode_set-err :
    (path body : Bytes) (rev : ℤ) → check_path path ≡ none → (encode_set path body rev).err ≡ none
unfolding encode_set
encode_set-err path body rev h = rw (encode_set, h) refl
