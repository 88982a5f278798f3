-- ===== src/Store/Process.antt =====
-- The loop of the store: `process` and `notify` of src/pkg/store/store.go.
pub mod Steps
pub mod Replay
pub mod Consistent
pub mod Queue
pub mod Progress
pub mod Watches
pub mod Notices
use doozer.Common.Heap
use doozer.Common.{
  ℕ, zero, suc, ◌+◌, ℤ, pos, negsuc, pos_part, ◌+₆₄◌, ◌-₆₄◌, ◌-ℤ◌, ltb_ℤ, leb_ℤ, eqb_ℤ, Bool, true,
  false, ◌&&◌, not, Bytes, List, [], ◌∷◌, ◌++◌, Option, none, some, if◌then◌else◌,
}
use doozer.Store.Error.{Texts}
use doozer.Store.Node.{Node, zero_node, empty_dir}
use doozer.Store.Event.{Event}
use doozer.Store.Apply.{apply}

pub record Op : Type 0 where
  pub seqn : ℤ
  pub mut : Bytes

-- A watch has an identity in place of its channel, and the pattern of its glob.
pub record Watch : Type 0 where
  pub id : ℕ
  pub glob : Bytes
  pub from : ℤ
  pub to : ℤ

-- `todo` is a heap: here the list of its operations in the order of their positions. Which of two
-- operations at one position comes first is open in the code, and here it is the later one.
pub record Store : Type 0 where
  pub todo : List Op
  pub watches : List Watch
  pub ver : ℤ
  pub root : Node
  pub head : ℤ
  pub log : ℤ → Option Event
  pub notices : List (Watch × Event)

-- `New`.
abbrev pub new : Store
new = record {
  todo = [];
  watches = [];
  ver = pos 0;
  root = empty_dir;
  head = pos 0;
  log = λ p. none;
  notices = [];
}

-- `Event{}`, which a read of the map gives for a missing key.
abbrev pub zero_event : Event
zero_event = record {
  seqn = pos 0;
  path = [];
  body = [];
  rev = pos 0;
  mut = [];
  err = none;
  getter = zero_node;
}

abbrev pub or_zero_event : Option Event → Event
or_zero_event none = zero_event
or_zero_event (some e) = e

-- What the loop receives: an operation, a watch, a position to clean up to, a request to flush; or
-- it reports a number, or has sent its first notice.
pub data Input : Type 0 where
  op : Op → Input
  watch : Watch → Input
  clean : ℤ → Input
  report sent flush : Input

-- `heap.Push`.
unfoldable pub push : Op → List Op → List Op
push = Heap.push (λ (o : Op). o.seqn)

-- `st.log[p] = e`.
abbrev pub put_log : ℤ → Option Event → (ℤ → Option Event) → ℤ → Option Event
put_log p e log q = if eqb_ℤ q p then e else log q

-- The loop of `Clean`, which forgets the events from `head` on.
unfoldable pub clean_log : ℕ → ℤ → Store → Store
clean_log zero seqn s = s
clean_log (suc f) seqn s =
    let rest =
      clean_log f seqn (record s { log = put_log s.head none s.log; head = s.head +₆₄ pos 1 }) in
    if leb_ℤ s.head seqn then rest else s

-- What to do with the first operation of the queue.
pub data Turn : Type 0 where
  later drop now : Turn

abbrev pub turn : ℤ → ℤ → Turn
turn seqn next = if ltb_ℤ next seqn then later else if ltb_ℤ seqn next then drop else now

abbrev pub tail : List (Watch × Event) → List (Watch × Event)
tail [] = []
tail (n ∷ ns) = ns

abbrev pub flushes : Input → Bool
flushes flush = true
flushes _ = false

-- The matching of globs, and the watches that have been stopped, are parameters.
module _ (t : Texts) (matches : Bytes → Bytes → Bool) (stopped : Watch → Bool) where
  -- The watches that stay, and the notices for them.
  unfoldable pub notify : Event → List Watch → List Watch × List (Watch × Event)
  notify e [] = ([], [])
  notify e (w ∷ ws) =
      let (stay, told) = notify e ws in
      if stopped w then (stay, told) else if leb_ℤ w.to e.seqn then (stay, told) else (
        if eqb_ℤ e.seqn (w.to -₆₄ pos 1) then stay else w ∷ stay,
        if not (ltb_ℤ e.seqn w.from) && matches w.glob e.path then (w, e) ∷ told else told,
      )

  -- `st.log[ev.Seqn] = ev`, and the notices.
  unfoldable pub logged : Event → Store → Store
  logged e s =
      let r = notify e s.watches in
      record s { log = put_log e.seqn (some e) s.log; watches = r.0; notices = s.notices ++ r.1 }

  -- The notices of a new watch for the positions from `n` to `ver`.
  unfoldable pub catch_up : ℕ → ℤ → Store → List Watch → Store × List Watch
  catch_up zero n s ws = (s, ws)
  catch_up (suc f) n s [] = (s, [])
  catch_up (suc f) n s (w ∷ ws) =
      let r = notify (or_zero_event (s.log n)) (w ∷ ws) in
      let rest = catch_up f (n +₆₄ pos 1) (record s { notices = s.notices ++ r.1 }) r.0 in
      if leb_ℤ n s.ver then rest else (s, w ∷ ws)

  -- A watch from before `head` is forgotten.
  unfoldable pub add_watch : Watch → Store → Store
  add_watch w s =
      let r =
        catch_up (pos_part (s.ver -ℤ w.from) + 1) w.from s
          (if ltb_ℤ w.from s.head then [] else w ∷ []) in
      record r.0 { watches = r.0.watches ++ r.1 }

  unfoldable pub drop_stopped : List (Watch × Event) → List (Watch × Event)
  drop_stopped [] = []
  drop_stopped ((w, e) ∷ ns) = let rest = drop_stopped ns in if stopped w then rest else (w, e) ∷ ns

  -- The `select`.
  unfoldable pub take_input : Input → Store → Store
  take_input (op o) s = if ltb_ℤ s.ver o.seqn then record s { todo = push o s.todo } else s
  take_input (watch w) s = add_watch w s
  take_input (clean seqn) s = clean_log (pos_part (seqn -ℤ s.head) + 1) seqn s
  take_input report s = s
  take_input sent s = record s { notices = tail s.notices }
  take_input flush s = s

  -- The inner loop, with its variables `ver` and `ev`: operations are applied while they are next.
  unfoldable pub drain : Bool → List Op → ℤ → Event → Store → Store × ℤ × Event
  drain f [] ver ev s = (record s { todo = [] }, ver, ev)
  drain f (o ∷ os) ver ev s =
      let ver' = if f && ltb_ℤ ver o.seqn then o.seqn -₆₄ pos 1 else ver in
      let r = apply t s.root o.seqn o.mut in
      let s' = record s { ver = r.1.seqn; root = r.0 } in
      elim (turn o.seqn (ver' +₆₄ pos 1)) [
        | later ↦ (record s { todo = o ∷ os }, ver', ev)
        | drop ↦ drain f os ver' ev s
        | now ↦ drain f os r.1.seqn r.1 (if f then s' else logged r.1 s')
      ]

  -- One turn of the loop. A flush gives one final event.
  unfoldable pub step : Store → Input → Store
  step s i =
      let s₁ = take_input i (record s { notices = drop_stopped s.notices }) in
      let (s₂, ver, ev) = drain (flushes i) s₁.todo s₁.ver zero_event s₁ in
      if flushes i then record (logged ev s₂) { head = ver +₆₄ pos 1 } else s₂

-- The loop over its inputs, each with the watches that have been stopped by then.
unfoldable pub process :
    Texts → (Bytes → Bytes → Bool) → Store → List (Input × (Watch → Bool)) → Store
process t matches s [] = s
process t matches s ((i, stopped) ∷ is) = process t matches (step t matches stopped s i) is
