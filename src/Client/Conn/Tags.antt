-- ===== src/Client/Conn/Tags.antt =====
-- The choice of a tag in `send` of src/pkg/client/client.go.
use doozer.Common.{
  length-le-of_subset, ℕ, zero, suc, ◌+◌, ◌-◌, ◌%◌, ◌^◌, ◌≤◌, ◌<◌, ℤ, pos, negsuc, ◌+₃₂◌, wrap32,
  ◌+ℤ◌, InInt32, wrap32-InInt32, true, false, false≢true, List, [], ◌∷◌, length, Option, none, some,
  lookup, insert, lookup-inserted, int_key, eqb_ℤ, eqb_ℤ_iff, In, here, there, In-cons, IsDistinct,
  keys, length-keys, All, All-In, if_cases, ◌≡◌, refl, sym, ◌∙◌, ap, ◌⊎◌, inl, inr, arith,
}
use doozer.Client.Conn.{Conn, written, is_some, has, free_tag, send, finish}

-- The bit pattern of an int32.
word : ℤ → ℕ
word (pos n) = n
word (negsuc n) = 2 ^ 32 - 1 - n

word_bound : (a : ℤ) → InInt32 a → word a < 2 ^ 32
unfolding word
word_bound (pos n) h = omega (arith, h)
word_bound (negsuc n) h = omega arith

word_next : (a : ℤ) → InInt32 a → word (a +₃₂ pos 1) ≡ (word a + 1) % 2 ^ 32
unfolding word ◌+₃₂◌ wrap32 ◌+ℤ◌
word_next (pos n) h = ground arith
word_next (negsuc n) h = ground arith

-- The tags that `free_tag` tries.
tried : ℕ → ℤ → List ℤ
tried zero n = []
tried (suc f) n = n ∷ tried f (n +₃₂ pos 1)

length-tried : (f : ℕ) (n : ℤ) → length (tried f n) ≡ f
unfolding tried
length-tried zero n = refl
length-tried (suc f) n = ap (λ k. suc k) (length-tried f (n +₃₂ pos 1))

next-InInt32 : (n : ℤ) → InInt32 (n +₃₂ pos 1)
unfolding ◌+₃₂◌
next-InInt32 n = wrap32-InInt32 (n +ℤ pos 1)

tried-word :
    (f : ℕ) (n x : ℤ)
    → InInt32 n
    → In x (tried f n)
    → (i : ℕ) × (i < f) × (word x ≡ (word n + i) % 2 ^ 32)
unfolding tried
tried-word zero n x h j = elim j [ ]
tried-word (suc f) n x h j = elim (In-cons j) [
  | inl e ↦ (0, omega arith, ap word e ∙ omega (arith, word_bound n h))
  | inr k ↦
      let (i, b, e) = tried-word f (n +₃₂ pos 1) x (next-InInt32 n) k in
      (suc i, omega (arith, b), omega (arith, e, word_next n h))
]

tried-IsDistinct : (f : ℕ) (n : ℤ) → InInt32 n → f ≤ 2 ^ 32 → IsDistinct (tried f n)
unfolding tried
tried-IsDistinct zero n h b = tt
tried-IsDistinct (suc f) n h b = (
  λ j.
      let (i, c, e) = tried-word f (n +₃₂ pos 1) n (next-InInt32 n) j in
      absurd (omega (arith, b, c, e, word_next n h, word_bound n h)),
  tried-IsDistinct f (n +₃₂ pos 1) (next-InInt32 n) (omega (arith, b)),
)

has-keys : (m : ℤ) (cb : List (ℤ × Option ℕ)) → has m cb ≡ true → In m (keys cb)
unfolding lookup has
has-keys m [] h = absurd (false≢true h)
has-keys m ((j, v) ∷ cb) h =
    if_cases (λ o. is_some o ≡ true → In m (j ∷ keys cb)) (eqb_ℤ j m)
      (λ e k. rw ((eqb_ℤ_iff j m).0 e) here) (λ e k. there (has-keys m cb k)) h

free_tag-or :
    (f : ℕ) (n : ℤ) (cb : List (ℤ × Option ℕ))
    → (has (free_tag f n cb) cb ≡ false) ⊎ All (λ m. has m cb ≡ true) (tried f n)
unfolding tried free_tag
free_tag-or zero n cb = inr tt
free_tag-or (suc f) n cb =
    if_cases
      (λ r.
        (has r cb ≡ false)
        ⊎ ((has n cb ≡ true) × All (λ m. has m cb ≡ true) (tried f (n +₃₂ pos 1))))
      (has n cb) (λ e. elim (free_tag-or f (n +₃₂ pos 1) cb) [ inl g ↦ inl g | inr g ↦ inr (e, g) ])
      (λ e. inl e)

free_tag-fresh :
    (n : ℤ) (cb : List (ℤ × Option ℕ))
    → InInt32 n
    → length cb < 2 ^ 32
    → has (free_tag (suc (length cb)) n cb) cb ≡ false
free_tag-fresh n cb h b = elim (free_tag-or (suc (length cb)) n cb) [
  | inl e ↦ e
  | inr hs ↦
      let sub =
        length-le-of_subset (tried (suc (length cb)) n) (keys cb)
          (tried-IsDistinct (suc (length cb)) n h (omega (arith, b)))
          (λ a i. has-keys a cb (All-In (λ m. has m cb ≡ true) hs i)) in
      absurd (omega (arith, sub, length-keys cb, length-tried (suc (length cb)) n))
]

has-none : (o : Option (Option ℕ)) → is_some o ≡ false → o ≡ none
has-none none h = refl
has-none (some x) h = absurd (false≢true (sym h))

pub free_tag-none :
    (n : ℤ) (cb : List (ℤ × Option ℕ))
    → InInt32 n
    → length cb < 2 ^ 32
    → lookup (free_tag (suc (length cb)) n cb) cb ≡ none
unfolding has
free_tag-none n cb h b =
    has-none (lookup (free_tag (suc (length cb)) n cb) cb) (free_tag-fresh n cb h b)

-- A request that is written on a connection without an error goes out under a tag that no other call
-- of the connection holds, and its channel is in the table under that tag. The connection has fewer
-- than 2 ^ 32 calls.
pub send-fresh :
    (c : Conn) (ch : ℕ)
    → c.err ≡ none
    → InInt32 c.n
    → length c.cb < 2 ^ 32
    → (tag : ℤ) × ((send c ch written).1 ≡ (some tag, none))
      × (lookup tag c.cb ≡ none)
      × (lookup tag (send c ch written).0.cb ≡ some (some ch))
unfolding send finish
send-fresh c ch e h b =
    let tag = free_tag (suc (length c.cb)) c.n c.cb in
    rw e (tag, refl, free_tag-none c.n c.cb h b, lookup-inserted tag (some ch) c.cb)

pub send_lem :
    (c : Conn) (ch : ℕ)
    → c.err ≡ none
    → send c ch written ≡ (
      record c {
        n = free_tag (suc (length c.cb)) c.n c.cb;
        cb = insert (free_tag (suc (length c.cb)) c.n c.cb) (some ch) c.cb;
      },
      (some (free_tag (suc (length c.cb)) c.n c.cb), none),
    )
unfolding send finish
send_lem c ch e = rw e refl

pub free_tag-InInt32 :
    (f : ℕ) (n : ℤ) (cb : List (ℤ × Option ℕ)) → InInt32 n → InInt32 (free_tag f n cb)
unfolding free_tag
free_tag-InInt32 zero n cb h = h
free_tag-InInt32 (suc f) n cb h =
    if_cases InInt32 (has n cb) (λ e. free_tag-InInt32 f (n +₃₂ pos 1) cb (next-InInt32 n)) (λ e. h)
