-- ===== src/Store/Glob/Regexp.antt =====
-- The part of package regexp that globs use: `Compile` of a text `^...$` of escapes, negated classes of
-- one byte, dots, stars and plain characters, and `MatchString`.
use doozer.Common.{
  ℕ, ◌==◌, Bool, true, false, ◌&&◌, ◌||◌, not, Bytes, List, [], ◌∷◌, ◌++◌, Option, none, some,
  if◌then◌else◌,
}

pub data Atom : Type 0 where
  lit : ℕ → Atom
  other_than : ℕ → Atom
  any : Atom

pub data Item : Type 0 where
  one : Atom → Item
  many : Atom → Item

-- A byte that stands for itself after a backslash, and one that has a meaning of its own.
abbrev pub is_special : ℕ → Bool
is_special c =
    c == b'\\'
    || (c == b'['
        || (c == b']'
            || (c == b'('
                || (c == b')'
                    || (c == b'.'
                        || (c == b'*'
                            || (c == b'+'
                                || (c == b'?' || (c == b'|' || (c == b'^' || c == b'$'))))))))))

abbrev pub is_punctuation : ℕ → Bool
is_punctuation c = is_special c || (c == b'-' || c == b'/')

-- Where the compiler stands in the text. In `after a` a star may follow.
pub data Scan : Type 0 where
  start fresh escape opened negated ended failed : Scan
  closing : ℕ → Scan
  after : Atom → Scan

-- A byte that begins an atom, or that ends the text.
abbrev pub begin : ℕ → Scan
begin c =
    if c == b'\\'
    then escape
    else if c == b'['
    then opened
    else if c == b'.'
    then after any
    else if c == b'$'
    then ended
    else if is_special c
    then failed
    else after (lit c)

-- The items that a byte completes, and the next place.
unfoldable pub next : Scan → ℕ → List Item × Scan
next start c = ([], if c == b'^' then fresh else failed)
next fresh c = ([], begin c)
next (after a) c = if c == b'*' then (many a ∷ [], fresh) else (one a ∷ [], begin c)
next escape c = ([], if is_punctuation c then after (lit c) else failed)
next opened c = ([], if c == b'^' then negated else failed)
next negated c = ([], closing c)
next (closing d) c = ([], if c == b']' then after (other_than d) else failed)
next ended c = ([], failed)
next failed c = ([], failed)

abbrev pub emit : List Item → Option (List Item) → Option (List Item)
emit [] o = o
emit (i ∷ is) none = none
emit (i ∷ is) (some js) = some (i ∷ is ++ js)

unfoldable pub scan : Scan → Bytes → Option (List Item)
unfolding next
scan ended [] = some []
scan st [] = none
scan st (c ∷ s) = let (is, st') = next st c in emit is (scan st' s)

unfoldable pub compile : Bytes → Option (List Item)
unfolding scan
compile s = scan start s

unfoldable pub accepts : Atom → ℕ → Bool
accepts (lit d) c = c == d
accepts (other_than d) c = not (c == d)
accepts any c = true

-- The whole text is matched, by the anchors.
unfoldable pub match : List Item → Bytes → Bool
unfolding accepts
match [] [] = true
match [] (c ∷ s) = false
match (one a ∷ p) [] = false
match (one a ∷ p) (c ∷ s) = let rest = match p s in accepts a c && rest
match (many a ∷ p) [] = match p []
match (many a ∷ p) (c ∷ s) =
    let without = match p (c ∷ s) in
    let onward = match (many a ∷ p) s in without || (accepts a c && onward)
