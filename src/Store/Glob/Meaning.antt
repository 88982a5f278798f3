-- ===== src/Store/Glob/Meaning.antt =====
-- What a glob means: the comment of `Glob` in src/pkg/store/glob.go, for a pattern cut into its tokens
-- from the left.
use doozer.Common.{ℕ, ◌==◌, false, ◌&&◌, Bytes, List, [], ◌∷◌, if◌then◌else◌, ◌≡◌}

pub data Token : Type 0 where
  char : ℕ → Token
  ask star double : Token

abbrev pub single : ℕ → Token
single c = if c == b'*' then star else if c == b'?' then ask else char c

-- Two stars next to each other are one token.
unfoldable pub tokens : Bytes → List Token
tokens [] = []
tokens (c ∷ []) = single c ∷ []
tokens (c ∷ d ∷ s) =
    let pair = double ∷ tokens s in
    let one = single c ∷ tokens (d ∷ s) in if c == b'*' && d == b'*' then pair else one

-- `?` is a character of one component, `*` any characters of one component, `**` any characters of any
-- components, and all else is itself.
pub data Denotes : List Token → Bytes → Type 0 where
  empty : Denotes [] []
  itself : {c : ℕ} {ts : List Token} {s : Bytes} → Denotes ts s → Denotes (char c ∷ ts) (c ∷ s)
  asked :
      {c : ℕ} {ts : List Token} {s : Bytes}
      → (c == b'/') ≡ false
      → Denotes ts s
      → Denotes (ask ∷ ts) (c ∷ s)
  star_over : {ts : List Token} {s : Bytes} → Denotes ts s → Denotes (star ∷ ts) s
  star_char :
      {c : ℕ} {ts : List Token} {s : Bytes}
      → (c == b'/') ≡ false
      → Denotes (star ∷ ts) s
      → Denotes (star ∷ ts) (c ∷ s)
  double_over : {ts : List Token} {s : Bytes} → Denotes ts s → Denotes (double ∷ ts) s
  double_char :
      {c : ℕ} {ts : List Token} {s : Bytes}
      → Denotes (double ∷ ts) s
      → Denotes (double ∷ ts) (c ∷ s)
