-- ===== src/Client/Calls.antt =====
-- The methods of a client in src/pkg/client/client.go: the request that each sends, and what it makes of
-- the response. A response of none is a channel that was closed.
pub mod SetGet
use doozer.Common.{
  ℕ, ℤ, pos, negsuc, Bool, true, false, ltb, ◌&&◌, Bytes, codes, List, [], ◌∷◌, Option, none, some,
  ◌/◌, ◌%◌, ◌==◌, if◌then◌else◌,
}
use doozer.Server.Request.{
  Code, Verb, checkin, get, set, del, rev, nop, watch, walk, cancel, getdir, stat, T, R, Reply,
  set_flag, del_flag,
}
use doozer.Client.Conn.{Error, no_addrs, r_err, has_flag, get_string}

-- A request before it has a tag.
pub record Request : Type 0 where
  pub verb : Verb
  pub t : T
  pub other_tag : Option ℤ

abbrev pub empty_t : T
empty_t = record { tag = none; path = none; value = []; rev = none; offset = none; limit = none }

abbrev pub request : Verb → T → Request
request v t = record { verb = v; t = t; other_tag = none }

-- `GetInt64` and `GetInt32` of package protobuf.
abbrev pub get_int : Option ℤ → ℤ
get_int none = pos 0
get_int (some n) = n

-- `GetString` and the nil slice, for a body.
abbrev pub body_of : Option Bytes → Bytes
body_of none = []
body_of (some s) = s

-- `conn.call`, for the response on the channel.
abbrev pub called : (Code → Bytes) → Option R → Option R × Option Error
called name r = elim (r_err name r) [ none ↦ (r, none) | some e ↦ (none, some e) ]

-- One connection of `retry`: what its call gives, and whether the connection then has an error. The
-- list is the connections, and its end a channel without one.
unfoldable pub retry : List ((Option R × Option Error) × Bool) → Option R × Option Error
retry [] = (none, some no_addrs)
retry ((res, broken) ∷ more) = let again = retry more in if broken then again else res

abbrev pub rev_field : Option R → ℤ
rev_field none = pos 0
rev_field (some r) = get_int r.rev

abbrev pub set_request : Bytes → ℤ → Bytes → Request
set_request path old_rev body =
    request set (record empty_t { path = some path; value = body; rev = some old_rev })

abbrev pub set_result : Option R × Option Error → ℤ × Option Error
set_result (r, some e) = (pos 0, some e)
set_result (r, none) = (rev_field r, none)

abbrev pub get_request : Bytes → Option ℤ → Request
get_request path r = request get (record empty_t { path = some path; rev = r })

abbrev pub value_field : Option R → Bytes
value_field none = []
value_field (some r) = body_of r.value

abbrev pub get_result : Option R × Option Error → Bytes × (ℤ × Option Error)
get_result (r, some e) = ([], (pos 0, some e))
get_result (r, none) = (value_field r, (rev_field r, none))

abbrev pub rev_request : Request
rev_request = request rev empty_t

-- `none` is the panic of a response without a revision.
abbrev pub rev_result : Option R × Option Error → Option (ℤ × Option Error)
rev_result (r, some e) = some (pos 0, some e)
rev_result (none, none) = none
rev_result (some r, none) = elim r.rev [ none ↦ none | some n ↦ some (n, none) ]

abbrev pub del_request : Bytes → ℤ → Request
del_request path r = request del (record empty_t { path = some path; rev = some r })

-- The result of `Del`, `Nop` and `Checkin`.
abbrev pub plain_result : Option R × Option Error → Option Error
plain_result (r, e) = e

abbrev pub stat_request : Bytes → Option ℤ → Request
stat_request path r = request stat (record empty_t { path = some path; rev = r })

abbrev pub len_field : Option R → ℤ
len_field none = pos 0
len_field (some r) = get_int r.len

abbrev pub stat_result : Option R × Option Error → ℤ × (ℤ × Option Error)
stat_result (r, some e) = (pos 0, (pos 0, some e))
stat_result (r, none) = (len_field r, (rev_field r, none))

abbrev pub nop_request : Request
nop_request = request nop empty_t

abbrev pub checkin_request : Bytes → ℤ → Request
checkin_request id r = request checkin (record empty_t { path = some id; rev = some r })

abbrev pub watch_request : Bytes → ℤ → Request
watch_request glob from = request watch (record empty_t { path = some glob; rev = some from })

abbrev pub getdir_request : Bytes → ℤ → ℤ → Option ℤ → Request
getdir_request path offset limit r =
    request getdir
      (record empty_t { path = some path; rev = r; offset = some offset; limit = some limit })

abbrev pub walk_request : Bytes → Option ℤ → Option ℤ → Option ℤ → Request
walk_request glob r offset limit =
    request walk (record empty_t { path = some glob; rev = r; offset = offset; limit = limit })

abbrev pub cancel_request : ℤ → Request
cancel_request tag = record { verb = cancel; t = empty_t; other_tag = some tag }

-- The event that `events` makes of a response.
pub record Event : Type 0 where
  pub rev : ℤ
  pub path : Bytes
  pub body : Bytes
  pub flag : ℕ
  pub err : Option Error

abbrev pub event_of : (Code → Bytes) → Reply → Event
event_of name r = elim (r_err name (some r.body)) [
  | some e ↦ record { rev = pos 0; path = []; body = []; flag = 0; err = some e }
  | none ↦ record {
    rev = get_int r.body.rev;
    path = get_string r.body.path;
    body = body_of r.body.value;
    flag = r.flags;
    err = none;
  }
]

abbrev pub is_set : Event → Bool
is_set e = has_flag e.flag set_flag

abbrev pub is_del : Event → Bool
is_del e = has_flag e.flag del_flag
