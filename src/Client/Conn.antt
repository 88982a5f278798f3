-- ===== src/Client/Conn.antt =====
-- The table of reply channels of a connection, in src/pkg/client/client.go. A channel is a number, and
-- a tag that is being cancelled has the entry `none`.
pub mod Tags
pub mod Steps
pub mod Cancel
use doozer.Common.{
  ℕ, zero, suc, ◌+◌, ℤ, pos, ◌+₃₂◌, Bool, true, false, ◌&&◌, Bytes, codes, List, [], ◌∷◌, Option,
  none, some, if◌then◌else◌, lookup, insert, erase, int_key, ◌==◌, ◌/◌, ◌%◌, length,
}
use doozer.Server.Request.{
  Code, R, Reply, valid_flag, done_flag, not_dir, is_dir, rev_mismatch, too_late, redirect,
}

pub data Error : Type 0 where
  eof : Error
  no_addrs : Error
  bad_tag : Error
  response : Code → Bytes → Error
  other : Bytes → Error

-- The details of `respErrors`; `name` is the generated table `Response_Err_name`.
abbrev pub known_detail : (Code → Bytes) → Code → Bytes
known_detail name not_dir = codes "not a directory"
known_detail name is_dir = codes "is a directory"
known_detail name rev_mismatch = codes "rev mismatch"
known_detail name too_late = codes "that rev is gone"
known_detail name c = name c

abbrev pub coded : (Code → Bytes) → Option Code → Option Bytes → Option Error
coded name none detail = none
coded name (some c) (some d) = some (response c d)
coded name (some c) none = some (response c (known_detail name c))

-- `R.err`; the response of a channel that is closed is nil.
abbrev pub r_err : (Code → Bytes) → Option R → Option Error
r_err name none = some eof
r_err name (some r) = coded name r.err_code r.err_detail

-- `err` is the error that cannot be recovered from. A table that is `closed` is nil.
pub record Conn : Type 0 where
  pub err : Option Error
  pub n : ℤ
  pub cb : List (ℤ × Option ℕ)
  pub redirect_addr : Bytes
  pub redirected : Bool
  pub closed : Bool

abbrev pub dialed : Conn
dialed = record {
  err = none;
  n = pos 0;
  cb = [];
  redirect_addr = [];
  redirected = false;
  closed = false;
}

abbrev pub is_some : Option (Option ℕ) → Bool
is_some none = false
is_some (some x) = true

unfoldable pub has : ℤ → List (ℤ × Option ℕ) → Bool
unfolding lookup
has n cb = is_some (lookup n cb)

-- `for _, ok := c.cb[c.n]; ok; _, ok = c.cb[c.n] { c.n++ }`
unfoldable pub free_tag : ℕ → ℤ → List (ℤ × Option ℕ) → ℤ
unfolding ◌+₃₂◌ has
free_tag zero n cb = n
free_tag (suc f) n cb = let rest = free_tag f (n +₃₂ pos 1) cb in if has n cb then rest else n

-- What `writeT` does with a request: it is written, it cannot be marshalled, or the write fails.
pub data Written : Type 0 where
  written : Written
  unmarshalled : Error → Written
  failed : Error → Written

-- `send` with the channel `ch`: the tag, or the error.
unfoldable pub finish : Conn → ℤ → Written → Conn × (Option ℤ × Option Error)
unfolding erase
finish c tag written = (c, (some tag, none))
finish c tag (unmarshalled e) = (record c { cb = erase tag c.cb }, (none, some e))
finish c tag (failed e) = (record c { cb = erase tag c.cb; err = some e }, (none, some e))

unfoldable pub send : Conn → ℕ → Written → Conn × (Option ℤ × Option Error)
unfolding free_tag insert finish
send c ch w = elim c.err [
  | some e ↦ (c, (none, some e))
  | none ↦
      let tag = free_tag (suc (length c.cb)) c.n c.cb in
      finish (record c { n = tag; cb = insert tag (some ch) c.cb }) tag w
]

-- What `readResponses` does to the channels: the response that goes to one, and whether it is closed.
pub record Delivery : Type 0 where
  pub to : Option ℕ
  pub closes : Bool

abbrev pub nowhere : Delivery
nowhere = record { to = none; closes = false }

abbrev pub has_flag : ℕ → ℕ → Bool
has_flag flags k = flags / k % 2 == 1

abbrev pub tag_of : Reply → ℤ
tag_of r = elim r.tag [ none ↦ pos 0 | some t ↦ t ]

unfoldable pub drop_done : ℕ → ℤ → List (ℤ × Option ℕ) → List (ℤ × Option ℕ)
unfolding erase
drop_done flags tag cb = if has_flag flags done_flag then erase tag cb else cb

unfoldable pub deliver_to : Conn → Reply → Option (Option ℕ) → Conn × Delivery
unfolding drop_done
deliver_to c r (some none) = (c, nowhere)
deliver_to c r none = (record c { cb = drop_done r.flags (tag_of r) c.cb }, nowhere)
deliver_to c r (some (some ch)) = (
  record c { cb = drop_done r.flags (tag_of r) c.cb },
  record {
    to = if has_flag r.flags valid_flag then some ch else none;
    closes = has_flag r.flags done_flag;
  },
)

abbrev pub is_redirect : Option Code → Bool
is_redirect (some redirect) = true
is_redirect _ = false

-- `GetString` of package protobuf.
abbrev pub get_string : Option Bytes → Bytes
get_string none = []
get_string (some s) = s

abbrev pub redirect_to : Conn → Option Code → Option Bytes → Conn
redirect_to c code detail = record c {
  redirect_addr = if is_redirect code then get_string detail else c.redirect_addr;
  redirected = if is_redirect code then true else c.redirected;
}

-- A turn of `readResponses`.
unfoldable pub read_response : Conn → Reply → Conn × Delivery
unfolding lookup deliver_to
read_response c r =
    deliver_to (redirect_to c r.body.err_code r.body.err_detail) r (lookup (tag_of r) c.cb)

-- `close`, after the error that ends `readResponses`; the channels that it closes.
abbrev pub live : List (ℤ × Option ℕ) → List ℕ
live [] = []
live ((t, none) ∷ cb) = live cb
live ((t, some ch) ∷ cb) = ch ∷ live cb

abbrev pub keep_first : Option Error → Error → Option Error
keep_first none e = some e
keep_first (some d) e = some d

unfoldable pub close : Conn → Error → Conn × List ℕ
close c e = (record c { err = keep_first c.err e; cb = []; closed = true }, live c.cb)

-- The two halves of `cancel`, around its call: the entry that keeps the tag, and its removal when the
-- call succeeds. `true` is the half that goes on, and in the second that `ch` is closed.
unfoldable pub own : Conn → ℤ → ℕ → Option (Option ℕ) → Conn × Bool
unfolding insert
own c tag ch (some (some ch')) =
    if ch' == ch then (record c { cb = insert tag none c.cb }, true) else (c, false)
own c tag ch _ = (c, false)

unfoldable pub cancel_start : Conn → ℤ → ℕ → Conn × Bool
unfolding lookup own
cancel_start c tag ch = own c tag ch (lookup tag c.cb)

unfoldable pub cancel_end : Conn → ℤ → Option Error → Conn × Bool
unfolding erase
cancel_end c tag (some e) = (c, false)
cancel_end c tag none = (record c { cb = erase tag c.cb }, true)
