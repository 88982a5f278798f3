-- ===== src/Consensus/Tests.antt =====
-- The consensus package at concrete inputs: a codec, a cluster of three, and a schedule in which two
-- nodes learn.
use doozer.Common.{
  ℕ, zero, suc, ℤ, pos, negsuc, true, Bytes, codes, bytes_eq, dec_in, Option, none, some, List, [],
  ◌∷◌, here, lookup, insert, wrap64, ◌+ℤ◌, ◌+₆₄◌, All, map, ◌≡◌, refl, arith,
}
use doozer.Consensus.Message.{Cmd, nop, invite, rsvp, nominate, vote, tick, learn, M, Packet}
use doozer.Consensus.Message
use doozer.Consensus.Run
use doozer.Consensus.Run.{Env, new_run, index_of, quorum, broadcast, sched_trigger}
use doozer.Consensus.Coordinator
use doozer.Consensus.Acceptor
use doozer.Consensus.Learner
use doozer.Consensus.Manager.{recv_packet, send_learn}
use doozer.Consensus.System.{
  Cluster, System, Event, deliver, propose, start, start_run, step, receive, handle, run_events,
}
use doozer.Consensus.Safety.Schedules.{IsAllowed}
use doozer.Consensus.Safety.Learned.{agreement}
use doozer.Consensus.Safety.Rounds.{updates, updates-same_name}
use doozer.Common.{In, ◌-ℤ◌, ◌⊎◌, All}
use doozer.Common.Heap
use doozer.Consensus.Manager.Triggers.{push_packet, push_trigger}
use doozer.Consensus.Manager.Loop
use doozer.Consensus.Run.{Trigger}
use doozer.Consensus.Manager.Loop.{Input, prop, ticker, turns, take_input, schedule_fills}
use doozer.Consensus.Manager.Loop.Queues.{Waits, turns-Waits}
use doozer.Consensus.Manager.Loop.Fills.{take_input-fill}

abbrev cmd_code : Option Cmd → ℕ
cmd_code none = 0
cmd_code (some nop) = 1
cmd_code (some invite) = 2
cmd_code (some rsvp) = 3
cmd_code (some nominate) = 4
cmd_code (some vote) = 5
cmd_code (some tick) = 6
cmd_code (some Message.propose) = 7
cmd_code (some learn) = 8

abbrev code_cmd : ℕ → Option Cmd
code_cmd zero = none
code_cmd (suc zero) = some nop
code_cmd (suc (suc zero)) = some invite
code_cmd (suc (suc (suc zero))) = some rsvp
code_cmd (suc (suc (suc (suc zero)))) = some nominate
code_cmd (suc (suc (suc (suc (suc zero))))) = some vote
code_cmd (suc (suc (suc (suc (suc (suc zero)))))) = some tick
code_cmd (suc (suc (suc (suc (suc (suc (suc zero))))))) = some Message.propose
code_cmd _ = some learn

abbrev int_kind : Option ℤ → ℕ
int_kind none = 0
int_kind (some (pos n)) = 1
int_kind (some (negsuc n)) = 2

abbrev int_size : Option ℤ → ℕ
int_size none = 0
int_size (some (pos n)) = n
int_size (some (negsuc n)) = n

abbrev code_int : ℕ → ℕ → Option ℤ
code_int zero n = none
code_int (suc zero) n = some (pos n)
code_int _ n = some (negsuc n)

abbrev encode : M → Bytes
encode m =
    cmd_code m.cmd
    ∷ int_kind m.seqn
    ∷ int_size m.seqn
    ∷ int_kind m.crnd
    ∷ int_size m.crnd
    ∷ int_kind m.vrnd
    ∷ int_size m.vrnd
    ∷ m.value

abbrev decode : Bytes → Option M
decode (c ∷ sk ∷ sn ∷ ck ∷ cn ∷ vk ∷ vn ∷ value) = some (record {
  cmd = code_cmd c;
  seqn = code_int sk sn;
  crnd = code_int ck cn;
  vrnd = code_int vk vn;
  value = value;
})
decode _ = none

code_cmd_code : (c : Option Cmd) → code_cmd (cmd_code c) ≡ c
code_cmd_code none = refl
code_cmd_code (some nop) = refl
code_cmd_code (some invite) = refl
code_cmd_code (some rsvp) = refl
code_cmd_code (some nominate) = refl
code_cmd_code (some vote) = refl
code_cmd_code (some tick) = refl
code_cmd_code (some Message.propose) = refl
code_cmd_code (some learn) = refl

code_int_kind : (o : Option ℤ) → code_int (int_kind o) (int_size o) ≡ o
code_int_kind none = refl
code_int_kind (some (pos n)) = refl
code_int_kind (some (negsuc n)) = refl

decode-encode : (m : M) → decode (encode m) ≡ some m
decode-encode m = λ i. some (record {
  cmd = code_cmd_code m.cmd i;
  seqn = code_int_kind m.seqn i;
  crnd = code_int_kind m.crnd i;
  vrnd = code_int_kind m.vrnd i;
  value = m.value;
})

abbrev env : Env
env = record { marshal = encode; rand = λ n. pos 0; now = pos 0 }

abbrev three : List Bytes
three = codes "a" ∷ codes "b" ∷ codes "c" ∷ []

abbrev trio : Cluster
trio = record { event_seqn = pos 1; alpha = pos 50; cals = three; nodes = three; name = λ a. a }

-- Node a proposes; a and b answer, vote, and learn.
abbrev round_trip : List Event
round_trip =
    propose (codes "a") (codes "x")
    ∷ deliver 0
    ∷ deliver 1
    ∷ deliver 3
    ∷ deliver 6
    ∷ deliver 9
    ∷ deliver 10
    ∷ deliver 12
    ∷ deliver 15
    ∷ deliver 13
    ∷ deliver 16
    ∷ []

abbrev after : System
after = run_events env decode trio (start trio) round_trip

learns :
    ((after.runs (codes "a")).l.done ≡ true)
    × ((after.runs (codes "b")).l.done ≡ true)
    × ((after.runs (codes "b")).l.v ≡ codes "x")
unfolding run_events step receive handle recv_packet send_learn start_run new_run index_of quorum
    broadcast sched_trigger Run.update Coordinator.update Acceptor.update Learner.update
    Learner.init lookup insert bytes_eq dec_in wrap64 ◌+ℤ◌ ◌+₆₄◌ map
learns = (refl, refl, refl)

allowed : All (IsAllowed trio) round_trip
allowed = (((λ e. cc), here), (tt, (tt, (tt, (tt, (tt, (tt, (tt, (tt, (tt, (tt, tt)))))))))))

agreement_example : (after.runs (codes "a")).l.v ≡ (after.runs (codes "b")).l.v
agreement_example =
    agreement env decode trio round_trip (codes "a") (codes "b") decode-encode (λ x y _ _ e. e)
      (omega arith) (omega arith) (omega arith) (omega arith) allowed learns.0 learns.1

-- The rounds of "a" are the same after its timer, and after its timer and a vote, which it ignores.
abbrev timer : Packet
timer = record { addr = codes "a"; m = Message.tick_msg none }

abbrev ignored_vote : Packet
ignored_vote = record { addr = codes "a"; m = Message.vote_msg none (pos 1) [] }

updates-same_name_example : trio.name (codes "a") ≡ trio.name (codes "a")
unfolding start_run new_run index_of quorum bytes_eq Learner.init wrap64 ◌+ℤ◌ ◌+₆₄◌ map
    Coordinator.update updates
updates-same_name_example =
    updates-same_name trio (codes "a") (codes "a") (timer ∷ []) (timer ∷ ignored_vote ∷ []) here
      here (omega arith) (omega arith) refl

-- A proposal for position 3 comes, and then the time 20.
abbrev two_turns : List (Env × Input)
two_turns = (env, prop (pos 3) (codes "x")) ∷ (env, ticker (pos 20)) ∷ []

turns-Waits_example : Waits (turns decode (pos 10) (codes "a") (Loop.start (pos 1)) two_turns)
turns-Waits_example = turns-Waits decode (pos 10) (codes "a") (pos 1) two_turns

take_input-fill_example :
    ((take_input env decode
        (pos 10)
        (codes "a")
        (prop (pos 8) (codes "x"))
        (Loop.start (pos 5))).0.next_fill
      ≡ pos 8 +₆₄ pos 1)
    × (((pos 6 ≡ pos 8)
          ⊎ In
              (sched_trigger env (pos 6) (pos 10))
              (take_input env decode
                (pos 10)
                (codes "a")
                (prop (pos 8) (codes "x"))
                (Loop.start (pos 5))).0.fills)
        × All
            (λ (t : Trigger).
              In t
                (take_input env decode
                  (pos 10)
                  (codes "a")
                  (prop (pos 8) (codes "x"))
                  (Loop.start (pos 5))).0.fills)
            [])
take_input-fill_example =
    take_input-fill env decode (pos 10) (codes "a") (pos 8) (codes "x") (Loop.start (pos 5)) (pos 6)
      [] (omega arith, omega arith) (omega arith, omega arith) (omega arith) (omega arith) tt

-- A proposal for a position before `next_fill` moves that on all the same: 7 gets no fill.
skipped :
    (turns decode
      (pos 10)
      (codes "a")
      (Loop.start (pos 5))
      ((env, prop (pos 6) (codes "x")) ∷ (env, prop (pos 5) (codes "x")) ∷ [])).next_fill
    ≡ pos 8
unfolding turns take_input schedule_fills Loop.step Loop.deliver ◌+₆₄◌ wrap64 ◌+ℤ◌ ◌-ℤ◌ push_packet
    push_trigger Heap.push
skipped = refl
