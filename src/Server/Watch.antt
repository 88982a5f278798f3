-- ===== src/Server/Watch.antt =====
-- `watch`, `walk` and `cals` of src/pkg/server/server.go.
pub mod Limits
pub mod Told
use doozer.Common.{
  ℕ, zero, suc, ◌+◌, ℤ, pos, negsuc, ◌+₃₂◌, ◌+₆₄◌, ltb_ℤ, leb_ℤ, eqb_ℤ, Bool, true, false, ◌&&◌,
  ◌||◌, Bytes, bytes_eq, not, List, [], ◌∷◌, ◌++◌, Option, none, some, if◌then◌else◌, ◌^◌, ◌-◌,
}
use doozer.Store.Error.{Texts, glob_error}
use doozer.Store.Event.{Event, is_set, is_del}
use doozer.Store.Getter.{walk}
use doozer.Store.Glob.{Glob, compile_glob, match_glob}
use doozer.Store.Node.{Node}
use doozer.Store.Process.{Store}
use doozer.Server.Request.{
  T, empty, error_code, err_response, Reply, respond, answer, valid_flag, done_flag, set_flag,
  del_flag, too_late,
}
use doozer.Server.Handlers.{get_string, get_int, with_getter}

-- How `watch` begins: it answers and returns, it has a watch from a position, it has answered and goes on
-- with the watch nil, which its goroutine dereferences, or `NewWatch` panics.
pub data Begun : Type 0 where
  refused : List Reply → Begun
  watching : Glob → ℤ → Begun
  without : List Reply → Begun
  panics : Begun

-- `watchOn` fails for a position that is not positive, and for one before the head.
abbrev pub is_too_late : Store → ℤ → Bool
is_too_late st from = ltb_ℤ from (pos 1) || ltb_ℤ from st.head

-- `NewWatchFrom`, and the answer to its error.
abbrev pub from_position : Store → T → Glob → ℤ → Begun
from_position st t g from =
    if is_too_late st from then without (answer t (error_code too_late)) else watching g from

-- `NewWatch`
abbrev pub from_now : Store → Glob → ℤ → Begun
from_now st g from = if is_too_late st from then panics else watching g from

abbrev pub begin_with : Store → T → Glob → Begun
begin_with st t g =
    let rev = get_int t.rev in
    if eqb_ℤ rev (pos 0) then from_now st g (st.ver +₆₄ pos 1) else from_position st t g rev

unfoldable pub watch : Texts → Store → T → Begun
unfolding compile_glob ◌+₆₄◌
watch tx st t = elim (compile_glob (get_string t.path)) [
  | none ↦ refused (answer t (err_response tx (glob_error (get_string t.path))))
  | some g ↦ begin_with st t g
]

-- The reply for an event of the watch.
unfoldable pub event_flag : Event → ℕ
unfolding is_set is_del
event_flag ev = if is_set ev then set_flag else if is_del ev then del_flag else 0

unfoldable pub watch_reply : T → Event → Reply
unfolding event_flag
watch_reply t ev =
    respond t (valid_flag + event_flag ev)
      (record empty { path = some ev.path; value = some ev.body; rev = some ev.seqn })

-- What the visitor of `walk` changes. `fuse` is the number of files before the cancel is seen, if it is.
pub record Progress : Type 0 where
  pub offset : ℤ
  pub limit : ℤ
  pub fuse : Option ℕ
  pub out : List Reply

abbrev pub burn : Option ℕ → Option ℕ
burn none = none
burn (some n) = some (n - 1)

abbrev pub is_cancelled : Option ℕ → Bool
is_cancelled (some zero) = true
is_cancelled _ = false

abbrev pub walk_reply : T → Bytes → Bytes → ℤ → Reply
walk_reply t path body rev =
    respond t (valid_flag + set_flag)
      (record empty { path = some path; value = some body; rev = some rev })

unfoldable pub walk_visit : T → Bytes → Bytes → ℤ → Progress → Progress × Bool
unfolding ◌+₃₂◌
walk_visit t path body rev p =
    if is_cancelled p.fuse
    then (p, true)
    else if leb_ℤ p.offset (pos 0) && ltb_ℤ (pos 0) p.limit
    then (
      record {
        offset = p.offset +₃₂ negsuc 0;
        limit = p.limit +₃₂ negsuc 0;
        fuse = burn p.fuse;
        out = p.out ++ walk_reply t path body rev ∷ [];
      },
      false,
    )
    else (record p { offset = p.offset +₃₂ negsuc 0; fuse = burn p.fuse }, false)

-- `math.MaxInt32`
abbrev pub limit_of : Option ℤ → ℤ
limit_of none = pos (2 ^ 31 - 1)
limit_of (some n) = n

abbrev pub walk_start : T → Option ℕ → Progress
walk_start t fuse = record {
  offset = get_int t.offset;
  limit = limit_of t.limit;
  fuse = fuse;
  out = [];
}

abbrev pub walk_end : T → Progress × Bool → List Reply
walk_end t (p, true) = p.out
walk_end t (p, false) = p.out ++ respond t done_flag empty ∷ []

-- The replies to a walk of the tree of the getter; `f` is the depth of the walk.
unfoldable pub walk_replies : Glob → ℕ → T → Option ℕ → Node → List Reply
unfolding walk walk_visit match_glob
walk_replies g f t fuse n = walk_end t (walk n (match_glob g) (walk_visit t) f (walk_start t fuse))

unfoldable pub walk_request : Texts → Store → ℕ → T → Option ℕ → Option (List Reply)
unfolding compile_glob with_getter walk_replies
walk_request tx st f t fuse = elim (compile_glob (get_string t.path)) [
  | none ↦ some (answer t (err_response tx (glob_error (get_string t.path))))
  | some g ↦ with_getter st t (walk_replies g f t fuse)
]

-- `cals`
abbrev pub add_cal : Bytes → Bytes → ℤ → List Bytes → List Bytes × Bool
add_cal path body rev cals = (if bytes_eq body [] then cals else cals ++ body ∷ [], false)

unfoldable pub cals : Glob → ℕ → Store → List Bytes
unfolding walk match_glob
cals cal_glob f st = (walk st.root (match_glob cal_glob) add_cal f []).0
