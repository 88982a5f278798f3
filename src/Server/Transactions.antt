-- ===== src/Server/Transactions.antt =====
-- The transactions of a connection in src/pkg/server/server.go and txn.go: `serve`, `closeTxn`, `respond`,
-- `cancel` and `cancelAll`.
pub mod Closing
use doozer.Common.{
  ℕ, ℤ, Bool, true, false, List, [], ◌∷◌, Option, none, some, lookup, insert, erase, int_key,
  if◌then◌else◌, ◌/◌, ◌%◌, ◌==◌, ◌+◌,
}
use doozer.Server.Request.{
  Verb, eset, unknown_verb, T, R, Reply, empty, error_code, bad_tag, valid_flag, done_flag,
}
use doozer.Server.Request
use doozer.Server.Handlers.{get_int}

-- A transaction has two channels of its own, so it has an identity; `cancelled` tells that its channel
-- `cancel` holds a value.
pub record Txn : Type 0 where
  pub id : ℕ
  pub cancelled : Bool

-- `done` are the transactions whose channel of that name is closed.
pub record Serving : Type 0 where
  pub tx : List (ℤ × Txn)
  pub done : List ℕ
  pub poisoned : Bool

abbrev pub tag_of : T → ℤ
tag_of t = get_int t.tag

abbrev pub closing : Option Txn → List ℕ → List ℕ
closing none done = done
closing (some x) done = x.id ∷ done

unfoldable pub close_txn : ℤ → Serving → Serving
unfolding lookup erase
close_txn tag s = record s { tx = erase tag s.tx; done = closing (lookup tag s.tx) s.done }

-- `written` tells whether the response is marshalled and written.
unfoldable pub respond : Serving → T → ℕ → R → Bool → Serving × List Reply
unfolding close_txn
respond s t flag r written =
    let s' = if flag / done_flag % 2 == 1 then close_txn (tag_of t) s else s in
    if s.poisoned
    then (s', [])
    else if written
    then (s', Request.respond t flag r ∷ [])
    else (record s' { poisoned = true }, [])

-- `ops` has a handler for every verb but one.
abbrev pub known_verb : Verb → Bool
known_verb eset = false
known_verb _ = true

-- A turn of `serve`; `true` is a call of the handler, of the transaction `id`.
unfoldable pub serve : Serving → Verb → T → ℕ → Bool → Serving × (List Reply × Bool)
unfolding respond insert
serve s verb t id written =
    if known_verb verb
    then (
      record s { tx = insert (tag_of t) (record { id = id; cancelled = false }) s.tx },
      ([], true),
    )
    else let r = respond s t (valid_flag + done_flag) (error_code unknown_verb) written in
      (r.0, (r.1, false))

abbrev pub cancel_txn : Txn → Txn
cancel_txn x = record x { cancelled = true }

-- What a cancel does before it answers: it waits for the transaction, or it answers at once.
unfoldable pub start_cancel :
    Serving → T → ℤ → Bool → Option Txn → Serving × (List Reply × Option ℕ)
unfolding respond insert
start_cancel s t other written none =
    let r = respond s t (valid_flag + done_flag) bad_tag written in (r.0, (r.1, none))
start_cancel s t other written (some x) =
    (record s { tx = insert other (cancel_txn x) s.tx }, ([], some x.id))

unfoldable pub cancel : Serving → T → Option ℤ → Bool → Serving × (List Reply × Option ℕ)
unfolding start_cancel lookup
cancel s t other written = start_cancel s t (get_int other) written (lookup (get_int other) s.tx)

-- The answer, once the channel `done` of the transaction is closed.
unfoldable pub finish_cancel : Serving → T → Bool → Serving × List Reply
unfolding respond
finish_cancel s t written = respond s t (valid_flag + done_flag) empty written

abbrev pub cancel_each : List (ℤ × Txn) → List (ℤ × Txn)
cancel_each [] = []
cancel_each ((tag, x) ∷ tx) = (tag, cancel_txn x) ∷ cancel_each tx

unfoldable pub cancel_all : Serving → Serving
cancel_all s = record s { tx = cancel_each s.tx }
