-- ===== src/Client/Tests.antt =====
-- The client package at concrete inputs.
use doozer.Common.{
  ℤ, pos, ◌+₃₂◌, wrap32, ◌+ℤ◌, true, false, Bytes, bytes_eq, bytes_eq_iff, false≢true, codes, List,
  [], ◌∷◌, none, some, lookup, insert, erase, In, All, ◌≡◌, ◌≢◌, refl, ◌⊎◌, arith, int_key,
  parts_of_eq,
}
use doozer.Store.Error.{Texts}
use doozer.Store.Path.{check_path, split}
use doozer.Store.Mutation.{encode_set}
use doozer.Store.Node.{empty_dir, find, at, get, get_path}
use doozer.Store.Apply.{apply, blocked}
use doozer.Store.Process.{Store, new}
use doozer.Server.Request.{Reply, empty, respond}
use doozer.Server.Handlers
use doozer.Client.Conn.{
  Conn, dialed, has, free_tag, send, written, nowhere, read_response, deliver_to, cancel_start,
  cancel_end, finish, own, eof,
}
use doozer.Client.Conn.Tags.{send-fresh}
use doozer.Client.Conn.Steps.{Step, sends, reads, starts, ends, take_steps}
use doozer.Client.Conn.Cancel.{cancel-quiet}
use doozer.Client.Link.{Event, call, accept, reply, Sent, run_link, step, open_link}
use doozer.Client.Link.Routed.{run_link-routes}
use doozer.Client.Calls.{empty_t, called, set_request, set_result, get_request}
use doozer.Client.Calls.SetGet.{response_of, ap_get, cal_conn, set_then_get}
use doozer.Client.Addrs.{
  add, remove, Input, node_addr, cal_entry, Monitor, on_cal, observe_all, Pool, closed, pool_turn,
  without,
}
use doozer.Client.Addrs.Monitored.{on_cal-removes, pool_turn-reconnects}

-- A connection with one call, whose tag is the next that would be tried.
abbrev busy : Conn
busy = record dialed { cb = (pos 0, some 7) ∷ [] }

send-fresh_example :
    (tag : ℤ) × ((send busy 8 written).1 ≡ (some tag, none))
    × (lookup tag busy.cb ≡ none)
    × (lookup tag (send busy 8 written).0.cb ≡ some (some 8))
send-fresh_example = send-fresh busy 8 refl (omega arith, omega arith) (omega arith)

abbrev late : Reply
late = respond (record empty_t { tag = some (pos 0) }) 3 empty

-- The call that cancels is sent, another call is cancelled, and the first attempt fails.
abbrev meanwhile : List Step
meanwhile =
    sends 8 written
    ∷ reads late
    ∷ starts (pos 1) 8
    ∷ ends (pos 0) (some eof)
    ∷ ends (pos 1) none
    ∷ []

cancel-quiet_example :
    ((read_response (take_steps (cancel_start busy (pos 0) 7).0 meanwhile) late).1 ≡ nowhere)
    × ((read_response (take_steps (cancel_start busy (pos 0) 7).0 meanwhile) late).0.cb
        ≡ (take_steps (cancel_start busy (pos 0) 7).0 meanwhile).cb)
    × ((send (take_steps (cancel_start busy (pos 0) 7).0 meanwhile) 9 written).1.0 ≢ some (pos 0))
    × (lookup
          (pos 0)
          (cancel_end (take_steps (cancel_start busy (pos 0) 7).0 meanwhile) (pos 0) none).0.cb
        ≡ none)
    × (lookup
          (pos 0)
          (cancel_end
            (take_steps (cancel_start busy (pos 0) 7).0 meanwhile)
            (pos 0)
            (some eof)).0.cb
        ≡ some none)
unfolding lookup
cancel-quiet_example =
    cancel-quiet busy (pos 0) 7 meanwhile late 9 written eof refl (omega arith, omega arith)
      (omega arith) (tt, (tt, (tt, (tt, ((λ e. omega (arith, parts_of_eq e)), tt))))) refl

-- Two calls, of which the second is answered first.
abbrev out_of_order : List Event
out_of_order =
    call empty_t ∷ call empty_t ∷ accept ∷ accept ∷ reply 1 3 empty ∷ reply 0 3 empty ∷ []

abbrev answered : Sent
answered = record { r = respond (record empty_t { tag = some (pos 1) }) 3 empty; ch = 1 }

abbrev answered_last : Sent
answered_last = record { r = respond (record empty_t { tag = some (pos 0) }) 3 empty; ch = 0 }

run_link-routes_example :
    (read_response (run_link open_link out_of_order).client answered.r).1
    ≡ record { to = some 1; closes = true }
unfolding run_link step send free_tag finish has lookup insert ◌+₃₂◌ wrap32 ◌+ℤ◌
run_link-routes_example =
    run_link-routes out_of_order answered (answered_last ∷ []) (omega arith) refl

abbrev texts : Texts
texts = record {
  enotdir_text = codes "not a directory";
  eisdir_text = codes "is a directory";
  num_error_text = λ s. s;
}

abbrev after_set : Store
after_set = record new {
  root = (apply texts empty_dir (pos 1) (encode_set (codes "/a") (codes "x") (pos 0)).mutation).0;
}

set_then_get_example :
    (set_result (
        called
          (λ c. [])
          (response_of (
            Handlers.set texts new
              (cal_conn texts empty_dir (pos 1))
              (set_request (codes "/a") (pos 0) (codes "x")).t)))
      ≡ (pos 1, none))
    × (ap_get (λ c. []) (Handlers.get after_set (get_request (codes "/a") none).t)
        ≡ some (codes "x", (pos 1, none)))
unfolding blocked check_path split get_path get at find
set_then_get_example =
    set_then_get (λ c. []) texts new after_set (pos 1) (codes "/a") (codes "x") (pos 0) refl
      (omega arith, omega arith) refl refl refl refl

-- A CAL of node n, whose address changes before the CAL's entry becomes empty.
abbrev seen : Monitor
seen = record { addrs = (codes "/ctl/node/n/addr", codes "1.2.3.4") ∷ []; cal = [] }

abbrev moved : List Input
moved =
    node_addr (record { path = codes "/ctl/node/n/addr"; body = codes "5.6.7.8" })
    ∷ cal_entry (record { path = codes "/ctl/cal/1"; body = codes "m" })
    ∷ []

on_cal-removes_example :
    (addr : Bytes) × ((on_cal (codes "/ctl/cal/0") (codes "n") seen).1 ≡ add addr ∷ [])
    × ((on_cal
          (codes "/ctl/cal/0")
          []
          (observe_all (on_cal (codes "/ctl/cal/0") (codes "n") seen).0 moved)).1
        ≡ remove addr ∷ [])
unfolding bytes_eq
on_cal-removes_example =
    on_cal-removes seen (codes "/ctl/cal/0") b'n' [] moved
      (tt, ((λ e. false≢true ((bytes_eq_iff (codes "/ctl/cal/0") (codes "/ctl/cal/1")).1 e)), tt))

abbrev two_known : Pool
two_known = record { known = codes "a" ∷ codes "b" ∷ []; current = some (codes "a") }

pool_turn-reconnects_example :
    (((pool_turn two_known (closed (λ a. true))).current ≡ none)
      × (((pool_turn two_known (closed (λ a. true))).known ≡ [])
          × All (λ a. true ≡ false) (without (codes "a") two_known.known)))
    ⊎ ((a : Bytes) × ((pool_turn two_known (closed (λ a. true))).current ≡ some a)
        × (true ≡ true)
        × (In a two_known.known × (a ≢ codes "a")))
pool_turn-reconnects_example = pool_turn-reconnects two_known (codes "a") (λ a. true) refl

-- The call of channel 7 is cancelled, the next call takes its tag, and a last reply that was under way
-- goes to the next call.
abbrev reused : Conn
reused = (send (cancel_end (cancel_start busy (pos 0) 7).0 (pos 0) none).0 8 written).0

misdelivered : (read_response reused late).1 ≡ record { to = some 8; closes = true }
unfolding lookup cancel_start cancel_end own insert erase send finish free_tag has read_response
    deliver_to
misdelivered = refl
