-- ===== src/Consensus/Run.antt =====
-- src/pkg/consensus/run.go: what one node does for one position of the log.
pub mod Index
use doozer.Common.{
  ℕ, suc, ℤ, pos, negsuc, ◌+₆₄◌, ◌+ℤ◌, ◌-ℤ◌, eqb_ℤ, Bool, true, false, ◌+◌, ◌/◌, ◌%◌, Bytes,
  bytes_eq, Option, none, some, List, [], ◌∷◌, ◌++◌, map, if◌then◌else◌, length,
}
use doozer.Consensus.Message.{M, Packet}
use doozer.Consensus.Coordinator
use doozer.Consensus.Coordinator.{Coordinator, zero_coordinator}
use doozer.Consensus.Acceptor
use doozer.Consensus.Acceptor.{Acceptor, zero_acceptor}
use doozer.Consensus.Learner
use doozer.Consensus.Learner.{Learner, init}

-- The type `Packet` of manager.go: bytes for an address, or bytes from one.
pub record Datagram : Type 0 where
  pub addr : Bytes
  pub payload : Bytes

-- `trigger` of manager.go: a time, and a position of the log.
pub record Trigger : Type 0 where
  pub t : ℤ
  pub n : ℤ

-- `store.Op`: a mutation for a position of the log.
pub record Op : Type 0 where
  pub seqn : ℤ
  pub mut : Bytes

-- What the package takes from elsewhere: the encoding of goprotobuf, the random numbers of
-- `rand.Int63n`, and the clock.
pub record Env : Type 0 where
  pub marshal : M → Bytes
  pub rand : ℤ → ℤ
  pub now : ℤ

pub record Run : Type 0 where
  pub seqn : ℤ
  pub self : Bytes
  pub cals : List Bytes
  pub addrs : List (Bytes × Bool)
  pub c : Coordinator
  pub a : Acceptor
  pub l : Learner
  pub bound : ℤ

unfoldable pub quorum : Run → ℕ
quorum r = length r.cals / 2 + 1

index_from : ℤ → List Bytes → Bytes → ℤ
index_from i [] self = negsuc 0
index_from i (id ∷ cals) self = if bytes_eq id self then i else index_from (i +ℤ pos 1) cals self

unfoldable pub index_of : Run → Bytes → ℤ
unfolding index_from ◌+ℤ◌
index_of r self = index_from (pos 0) r.cals self

-- The `%` of Go, which has the sign of its left operand.
unfoldable pub rem : ℤ → ℕ → ℤ
unfolding ◌-ℤ◌
rem (pos a) b = pos (a % b)
rem (negsuc a) b = pos 0 -ℤ pos (suc a % b)

leader_from : ℤ → ℕ → ℤ → List Bytes → Bytes → Bool
unfolding rem ◌+ℤ◌
leader_from seqn n i [] self = false
leader_from seqn n i (id ∷ cals) self =
    if bytes_eq id self then eqb_ℤ (rem seqn n) i else leader_from seqn n (i +ℤ pos 1) cals self

unfoldable pub is_leader : Run → Bytes → Bool
unfolding leader_from
is_leader r self = leader_from r.seqn (length r.cals) (pos 0) r.cals self

-- The body of the loop of `generateRuns`, after `r := t` and with what it reads from the event.
unfoldable pub new_run : Run → ℤ → ℤ → List Bytes → List (Bytes × Bool) → Run
new_run t event_seqn alpha cals addrs =
    let r : Run = record t { seqn = event_seqn +₆₄ alpha; cals = cals; addrs = addrs } in
    record r {
      c = record r.c {
        size = length cals;
        quor = quorum r;
        crnd = index_of r r.self +₆₄ pos (length cals);
      };
      l = init (pos (quorum r));
    }

-- The template that `NewManager` makes for every run of a node.
abbrev pub initial_wait_bound : ℤ
initial_wait_bound = pos 1_000_000

abbrev pub template : Bytes → Run
template self = record {
  seqn = pos 0;
  self = self;
  cals = [];
  addrs = [];
  c = zero_coordinator;
  a = zero_acceptor;
  l = record { round = pos 0; quorum = pos 0; votes = []; voted = []; v = []; done = false };
  bound = initial_wait_bound;
}

abbrev pub stamp : ℤ → M → M
stamp q m = record m { seqn = some q }

module _ (env : Env) where
  unfoldable pub broadcast : Run → Option M → List Datagram
  broadcast r none = []
  broadcast r (some m) =
      map (λ (addr, _). record { addr = addr; payload = env.marshal (stamp r.seqn m) }) r.addrs

  unfoldable pub sched_trigger : ℤ → ℤ → Trigger
  sched_trigger n delay = record { t = env.now +₆₄ delay; n = n }

  -- What `update` leaves behind: the run, what it put on `out`, the trigger that it scheduled, what
  -- it put on `ops`, and its result.
  pub record Effects : Type 0 where
    pub run : Run
    pub out : List Datagram
    pub tick : Option Trigger
    pub op : Option Op
    pub learned : Bool

  unfoldable pub update : Run → Packet → Effects
  update r p =
      if r.l.done
      then record { run = r; out = []; tick = none; op = none; learned = false }
      else let (c', m, wants) = Coordinator.update r.c p in
        let bound' = if wants then r.bound +₆₄ r.bound else r.bound in
        let (a', n) = Acceptor.update r.a p.m in
        let (l', told) = Learner.update r.l p in
        record {
          run = record r { c = c'; a = a'; l = l'; bound = bound' };
          out = broadcast r m ++ (broadcast r n ++ broadcast r told.m);
          tick = if wants then some (sched_trigger r.seqn (env.rand bound')) else none;
          op = if told.ok then some (record { seqn = r.seqn; mut = told.value }) else none;
          learned = told.ok;
        }
