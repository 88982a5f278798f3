-- ===== src/Server/Request.antt =====
-- Requests and responses of src/pkg/server/server.go and src/pkg/proto, and the constant responses.
use doozer.Common.{ℕ, ℤ, Bytes, codes, List, [], ◌∷◌, Option, none, some, ◌+◌}
use doozer.Store.Error.{Error, Texts, error_string}

pub data Code : Type 0 where
  bad_path missing_arg is_dir not_dir no_ent too_late rev_mismatch other redirect : Code
  tag_in_use unknown_verb : Code

pub data Verb : Type 0 where
  checkin get set del eset rev nop watch walk cancel getdir stat : Verb

-- The fields of a request that the handlers read.
pub record T : Type 0 where
  pub tag : Option ℤ
  pub path : Option Bytes
  pub value : Bytes
  pub rev : Option ℤ
  pub offset : Option ℤ
  pub limit : Option ℤ

pub record R : Type 0 where
  pub err_code : Option Code
  pub err_detail : Option Bytes
  pub path : Option Bytes
  pub value : Option Bytes
  pub rev : Option ℤ
  pub len : Option ℤ

-- `&R{}`
abbrev pub empty : R
empty = record {
  err_code = none;
  err_detail = none;
  path = none;
  value = none;
  rev = none;
  len = none;
}

abbrev pub error_code : Code → R
error_code c = record empty { err_code = some c }

abbrev pub detailed : Code → Bytes → R
detailed c s = record empty { err_code = some c; err_detail = some s }

abbrev pub readonly : R
readonly = detailed other (codes "no known writeable addresses")

-- `badTag`
abbrev pub bad_tag : R
bad_tag = detailed other (codes "unknown tag")

-- `errResponse`
abbrev pub err_response : Texts → Error → R
err_response t e = detailed other (error_string t e)

-- Response flags.
abbrev pub valid_flag : ℕ
valid_flag = 1

abbrev pub done_flag : ℕ
done_flag = 2

abbrev pub set_flag : ℕ
set_flag = 4

abbrev pub del_flag : ℕ
del_flag = 8

-- What `respond` sends to the client: the response with the request's tag and the flags. It writes these
-- to the response in memory, and some responses are shared: `respond` below is a call between whose
-- writes and marshal no other call writes to the response. `Server.Shared` has calls that interleave.
pub record Reply : Type 0 where
  pub tag : Option ℤ
  pub flags : ℕ
  pub body : R

abbrev pub respond : T → ℕ → R → Reply
respond t flag r = record { tag = t.tag; flags = flag; body = r }

-- The one reply of most handlers: `respond(t, Valid|Done, nil, r)`.
abbrev pub answer : T → R → List Reply
answer t r = respond t (valid_flag + done_flag) r ∷ []
