-- ===== src/Server/Handlers.antt =====
-- The handlers of a connection, in src/pkg/server/server.go.
pub mod Answers
use doozer.Common.{
  ◌+₆₄◌, ◌&&◌, ℤ, pos, eqb_ℤ, Bool, not, Bytes, codes, List, [], ◌∷◌, ◌++◌, Option, none, some,
  if◌then◌else◌,
}
use doozer.Store.Error.{Error, Texts}
use doozer.Store.Number.{itoa64}
use doozer.Store.Node.{Node, dir, get_path, stat_path}
use doozer.Store.Event.{Event}
use doozer.Store.Process.{Store}
use doozer.Server.Propose
use doozer.Server.Propose.{Waited, late, ready, blocked, wait}
use doozer.Server.Request.{
  T, empty, error_code, detailed, readonly, err_response, Reply, answer, missing_arg, bad_path,
  is_dir, too_late, rev_mismatch, redirect,
}

-- `GetString` of package protobuf, and `GetInt32`.
abbrev pub get_string : Option Bytes → Bytes
get_string none = []
get_string (some s) = s

abbrev pub get_int : Option ℤ → ℤ
get_int none = pos 0
get_int (some n) = n

abbrev pub at_position : T → (Node → List Reply) → Waited → Option (List Reply)
at_position t f late = some (answer t (error_code too_late))
at_position t f (ready e) = some (f e.getter)
at_position t f blocked = none

-- The getter of a request: a snapshot, or the tree at the revision that it names. The result is the
-- handler's replies; `none` is a handler that waits for the position.
abbrev pub at_rev : Store → T → (Node → List Reply) → Option ℤ → Option (List Reply)
at_rev st t f none = some (f st.root)
at_rev st t f (some rev) = at_position t f (wait st rev)

unfoldable pub with_getter : Store → T → (Node → List Reply) → Option (List Reply)
unfolding wait
with_getter st t f = at_rev st t f t.rev

abbrev pub got : T → List Bytes × ℤ → List Reply
got t (v ∷ [], rev) =
    if eqb_ℤ rev dir
    then answer t (error_code is_dir)
    else answer t (record empty { rev = some rev; value = some v })
got t (v, rev) =
    if eqb_ℤ rev dir
    then answer t (error_code is_dir)
    else answer t (record empty { rev = some rev })

unfoldable pub get : Store → T → Option (List Reply)
unfolding with_getter get_path
get st t = with_getter st t (λ g. got t (get_path (get_string t.path) g))

unfoldable pub stat_reply : T → Node → List Reply
unfolding stat_path
stat_reply t g =
    let (ln, rev) = stat_path (get_string t.path) g in
    answer t (record empty { len = some ln; rev = some rev })

unfoldable pub stat : Store → T → Option (List Reply)
unfolding with_getter stat_reply
stat st t = with_getter st t (stat_reply t)

unfoldable pub rev : Store → T → List Reply
rev st t = answer t (record empty { rev = some st.ver })

abbrev pub first : List Bytes → Bytes
first [] = []
first (x ∷ xs) = x

-- `cal` is what the choice among the CALs gives, if there are any. The code tests the revision for two
-- values at once, which never holds, so the first part is sent whatever was found.
unfoldable pub redirect_to : Store → T → Option Bytes → List Reply
unfolding get_path
redirect_to st t none = answer t readonly
redirect_to st t (some cal) =
    let parts = (get_path (codes "/ctl/node/" ++ (cal ++ codes "/addr")) st.root).0 in
    answer t (detailed redirect (first parts))

-- What a connection knows: whether the node is a CAL, the CAL that it would redirect to, the proposer,
-- and whether the client cancels the request before the proposal is answered.
pub record Conn : Type 0 where
  pub cal : Bool
  pub choice : Option Bytes
  pub propose : Bytes → Event
  pub cancelled : Bool

-- The answer to the event of a proposed set.
abbrev pub set_answer : Texts → T → ℤ → Option Error → List Reply
set_answer tx t seqn none = answer t (record empty { rev = some seqn })
set_answer tx t seqn (some (Error.bad_path k)) = answer t (detailed bad_path k)
set_answer tx t seqn (some Error.rev_mismatch) = answer t (error_code rev_mismatch)
set_answer tx t seqn (some e) = answer t (err_response tx e)

abbrev pub set_reply : Texts → T → Event → List Reply
set_reply tx t ev = set_answer tx t ev.seqn ev.err

abbrev pub set_args : Texts → Conn → T → Option Bytes → Option ℤ → List Reply
set_args tx c t (some path) (some rev) =
    if c.cancelled then [] else set_reply tx t (Propose.set c.propose path t.value rev)
set_args tx c t _ _ = answer t (error_code missing_arg)

unfoldable pub set : Texts → Store → Conn → T → List Reply
unfolding Propose.set redirect_to
set tx st c t = if not c.cal then redirect_to st t c.choice else set_args tx c t t.path t.rev

abbrev pub del_answer : Texts → T → Option Error → List Reply
del_answer tx t none = answer t empty
del_answer tx t (some e) = answer t (err_response tx e)

abbrev pub del_reply : Texts → T → Event → List Reply
del_reply tx t ev = del_answer tx t ev.err

abbrev pub del_args : Texts → Conn → T → Option Bytes → Option ℤ → List Reply
del_args tx c t (some path) (some rev) =
    if c.cancelled then [] else del_reply tx t (Propose.del c.propose path rev)
del_args tx c t _ _ = answer t (error_code missing_arg)

unfoldable pub del : Texts → Store → Conn → T → List Reply
unfolding Propose.del redirect_to
del tx st c t = if not c.cal then redirect_to st t c.choice else del_args tx c t t.path t.rev

-- The event of a nop is not looked at.
unfoldable pub nop : Store → Conn → T → List Reply
unfolding redirect_to
nop st c t =
    if not c.cal then redirect_to st t c.choice else if c.cancelled then [] else answer t empty

-- A session's lease, in nanoseconds.
abbrev pub session_lease : ℤ
session_lease = pos 6_000_000_000

abbrev pub checkin_path : Bytes → Bytes
checkin_path name = codes "/ctl/sess/" ++ name

-- The answer to the event of a proposed lease. `expired` tells whether the wait of a client that
-- renews its lease ends before it cancels.
abbrev pub checkin_reply : Texts → T → ℤ → Bool → Event → List Reply
checkin_reply tx t rev expired ev = elim ev.err [
  | some Error.rev_mismatch ↦ answer t (error_code rev_mismatch)
  | some e ↦ answer t (err_response tx e)
  | none ↦ if not (eqb_ℤ rev (pos 0)) && not expired then [] else answer t empty
]

-- The proposal of a lease until `deadline`, at the revision `cur`.
abbrev pub renew : Texts → Conn → T → ℤ → Bool → Bytes → ℤ → ℤ → List Reply
renew tx c t deadline expired path rev cur =
    if c.cancelled
    then []
    else checkin_reply tx t rev expired (Propose.set c.propose path (itoa64 deadline) cur)

abbrev pub checkin_args : Texts → Store → Conn → T → ℤ → Bool → Option Bytes → Option ℤ → List Reply
checkin_args tx st c t now expired (some name) (some rev) =
    let path = checkin_path name in
    let cur = (get_path path st.root).1 in
    let deadline = now +₆₄ session_lease in
    if eqb_ℤ rev (pos 0)
    then renew tx c t deadline expired path rev rev
    else if eqb_ℤ cur (pos 0)
    then answer t (error_code rev_mismatch)
    else renew tx c t deadline expired path rev cur
checkin_args tx st c t now expired _ _ = answer t (error_code missing_arg)

-- `now` is what the clock gives.
unfoldable pub checkin : Texts → Store → Conn → T → ℤ → Bool → List Reply
unfolding get_path itoa64 Propose.set redirect_to
checkin tx st c t now expired =
    if not c.cal then redirect_to st t c.choice else checkin_args tx st c t now expired t.path t.rev
