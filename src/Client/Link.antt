-- ===== src/Client/Link.antt =====
-- A connection with both of its ends: `send` and `readResponses` of src/pkg/client/client.go, and
-- `serve` and `respond` of src/pkg/server/server.go, without calls of `cancel`.
pub mod Order
pub mod Items
pub mod Routed
use doozer.Common.{
  ℕ, zero, suc, ◌+◌, ℤ, Bool, List, [], ◌∷◌, ◌++◌, Option, none, some, if◌then◌else◌,
}
use doozer.Server.Request.{T, R, Reply, respond, done_flag}
use doozer.Client.Conn.{
  Error, Conn, Written, written, Delivery, dialed, send, read_response, has_flag,
}

-- A request, and a reply, with the channel of the call that they are of. The code does not send it.
pub record Call : Type 0 where
  pub t : T
  pub ch : ℕ

pub record Sent : Type 0 where
  pub r : Reply
  pub ch : ℕ

-- `requests` are written and not read, `running` are the handlers that have not given their last
-- reply, and `wire` are the replies that the client has not read.
pub record Link : Type 0 where
  pub client : Conn
  pub next : ℕ
  pub requests : List Call
  pub running : List Call
  pub wire : List Sent

abbrev pub open_link : Link
open_link = record { client = dialed; next = 0; requests = []; running = []; wire = [] }

-- `reply i flags body` is a call of `respond` by the handler at `i`.
pub data Event : Type 0 where
  call : T → Event
  accept : Event
  reply : ℕ → ℕ → R → Event
  receive : Event

abbrev pub kept_before {ℓ} : {A : Type ℓ} → A → Option (A × List A) → Option (A × List A)
kept_before x none = none
kept_before x (some (y, ys)) = some (y, x ∷ ys)

abbrev pub take_at {ℓ} : {A : Type ℓ} → ℕ → List A → Option (A × List A)
take_at i [] = none
take_at zero (x ∷ xs) = some (x, xs)
take_at (suc i) (x ∷ xs) = kept_before x (take_at i xs)

abbrev pub called : Link → T → Conn × (Option ℤ × Option Error) → Link
called l t (c, (none, e)) = record l { client = c }
called l t (c, (some tag, e)) = record l {
  client = c;
  next = suc l.next;
  requests = l.requests ++ record { t = record t { tag = some tag }; ch = l.next } ∷ [];
}

abbrev pub accepted : Link → List Call → Link
accepted l [] = l
accepted l (q ∷ qs) = record l { requests = qs; running = l.running ++ q ∷ [] }

abbrev pub replied : Link → ℕ → R → Option (Call × List Call) → Link
replied l flags body none = l
replied l flags body (some (h, hs)) = record l {
  running = if has_flag flags done_flag then hs else l.running;
  wire = l.wire ++ record { r = respond h.t flags body; ch = h.ch } ∷ [];
}

abbrev pub received : Link → List Sent → Link
unfolding read_response
received l [] = l
received l (s ∷ ss) = record l { client = (read_response l.client s.r).0; wire = ss }

unfoldable pub step : Link → Event → Link
unfolding send received
step l (call t) = called l t (send l.client l.next written)
step l accept = accepted l l.requests
step l (reply i flags body) = replied l flags body (take_at i l.running)
step l receive = received l l.wire

unfoldable pub run_link : Link → List Event → Link
unfolding step
run_link l [] = l
run_link l (e ∷ es) = run_link (step l e) es
