-- ===== src/Start.antt =====
-- src/pkg/doozer.go: proposals of a node, and how a node joins a cluster.
pub mod Follow
mod Tests
use doozer.Common.{
  ℕ, zero, suc, ℤ, pos, ◌+₆₄◌, ltb_ℤ, eqb_ℤ, Bool, true, false, not, ◌&&◌, Bytes, bytes_eq, codes,
  List, [], ◌∷◌, ◌++◌, Option, none, some, if◌then◌else◌,
}
use doozer.Store.Mutation.{must_encode_set}
use doozer.Store.Node.{Node, clobber, dir, get_path}
use doozer.Store.Event.{Event, is_set}
use doozer.Store.Process.{Store, zero_event}
use doozer.Server.Propose.{Waited, late, ready, blocked, wait}
use doozer.Store.Getter.{get_dir, first}
use doozer.Consensus.Run.{Op}
use doozer.Client.Calls

-- A `consensus.Prop`.
pub record Prop : Type 0 where
  pub seqn : ℤ
  pub mut : Bytes

-- A position that the manager gives, and the store at that time.
pub record Position : Type 0 where
  pub seqn : ℤ
  pub store : Store

-- How a call of `Propose` ends, if it does.
pub data Ending : Type 0 where
  finished : Event → Ending
  panicked : Ending
  waiting : Ending

-- The proposals that it sends, in order, and its end.
pub record Proposing : Type 0 where
  pub props : List Prop
  pub ending : Ending

abbrev pub sent_first : Prop → Proposing → Proposing
sent_first p r = record r { props = p ∷ r.props }

-- After `Wait`: the rest of the turn, and what comes after it. The event that comes on a channel that has
-- none yet is the one that the store applies at the position later, if any.
abbrev pub awaited : (Event → Proposing) → Prop → Option Event → Waited → Proposing
awaited onward p later late = record { props = []; ending = panicked }
awaited onward p later (ready e) = sent_first p (onward e)
awaited onward p none blocked = record { props = p ∷ []; ending = waiting }
awaited onward p (some e) blocked = sent_first p (onward e)

-- `Propose` from the event `e` on: the positions that the manager gives, and the events that the store
-- comes to apply. It waits when the manager gives no further position.
unfoldable pub propose_from : (ℤ → Option Event) → Bytes → List Position → Event → Proposing
unfolding wait
propose_from log v [] e =
    if bytes_eq e.mut v
    then record { props = []; ending = finished e }
    else record { props = []; ending = waiting }
propose_from log v (p ∷ ps) e =
    let onward = propose_from log v ps in
    if bytes_eq e.mut v
    then record { props = []; ending = finished e }
    else awaited onward (record { seqn = p.seqn; mut = v }) (log p.seqn) (wait p.store p.seqn)

unfoldable pub propose : (ℤ → Option Event) → Bytes → List Position → Proposing
unfolding propose_from
propose log v ps = propose_from log v ps zero_event

abbrev pub op_of : ℤ → Option Bytes → Option Op
op_of seqn none = none
op_of seqn (some mut) = some (record { seqn = seqn; mut = mut })

-- `set` on a store at the version `ver`; `none` is the panic of `MustEncodeSet`.
unfoldable pub set : ℤ → Bytes → Bytes → ℤ → Option Op
unfolding must_encode_set
set ver path body rev = op_of (pos 1 +₆₄ ver) (must_encode_set path body rev)

-- The body of the loop of `follow`.
unfoldable pub follow_op : Calls.Event → Option Op
unfolding must_encode_set
follow_op ev = op_of ev.rev (must_encode_set ev.path ev.body clobber)

-- `advanceUntil`: how many nops it sends, for the versions that it reads.
unfoldable pub advance_until : ℤ → List ℤ → ℕ
advance_until done [] = 0
advance_until done (v ∷ vs) =
    let more = advance_until done vs in if ltb_ℤ v done then suc more else 0

abbrev pub cal_dir : Bytes
cal_dir = codes "/ctl/cal"

-- A file that is empty; `v[0]` of a node that is no directory.
abbrev pub is_vacant : List Bytes × ℤ → Bool
is_vacant (v, rev) = not (eqb_ℤ rev dir) && bytes_eq (first v) []

-- The first loop of `activate`, over the entries of the directory, which it reads from one tree: the
-- position of the first set that succeeds. `try` is the client's `Set` of the node's own name, `none` an error.
unfoldable pub claim_now : (Bytes → ℤ → Option ℤ) → Node → List Bytes → Option ℤ
unfolding get_path
claim_now try g [] = none
claim_now try g (base ∷ bases) =
    let p = cal_dir ++ (codes "/" ++ base) in
    let later = claim_now try g bases in
    if is_vacant (get_path p g)
    then elim (try p (get_path p g).1) [ none ↦ later | some seqn ↦ some seqn ]
    else later

-- The second loop, over the events of the watch.
unfoldable pub claim_later : (Bytes → ℤ → Option ℤ) → List Event → Option ℤ
unfolding is_set
claim_later try [] = none
claim_later try (ev ∷ evs) =
    let later = claim_later try evs in
    if is_set ev && bytes_eq ev.body []
    then elim (try ev.path ev.rev) [ none ↦ later | some seqn ↦ some seqn ]
    else later

-- The result is 0 when the watch ends first.
abbrev pub or_zero : Option ℤ → ℤ
or_zero none = pos 0
or_zero (some n) = n

unfoldable pub activate : (Bytes → ℤ → Option ℤ) → Node → List Event → ℤ
unfolding claim_now claim_later get_dir
activate try g evs = elim (claim_now try g (get_dir g cal_dir)) [
  | some seqn ↦ seqn
  | none ↦ or_zero (claim_later try evs)
]
