-- ===== src/Lib.antt =====
-- Doozer: a consistent, highly available store for small amounts of data, in Go.
--
-- Nodes agree, by one instance of Paxos for each position of a log, on the mutation that stands at
-- that position (src/pkg/consensus). Every node applies the mutations in the order of the log to a
-- tree of files and directories (src/pkg/store), and a server answers clients from that tree and
-- proposes their changes (src/pkg/server).
--
-- The paths below are under src/pkg of the repository. An int64 is an integer of `Common.Int` whose
-- additions wrap; a Go string is the list of its bytes; a Go map is an association list or, for a
-- directory, a list of entries; an error or a missing field is an `Option`.
--
-- consensus/
--   acceptor.go, learner.go, coordinator.go: `Consensus.Acceptor`, `Consensus.Learner` and
--     `Consensus.Coordinator` have the struct as a record and its `update` as `update`, with a
--     function for each case of the switch. Each has a view `Outcome` of what one call can do.
--   run.go: `Consensus.Run` (`run.update`, `broadcast`, `indexOf`, `isLeader`, and the body of the
--     loop of `generateRuns` as `new_run`) and `Consensus.Members` (`getCals` and `getAddrs`). What the
--     code sends to channels is in the result.
--   manager.go: `Consensus.Manager` has `recvPacket`, `sendLearn` and, in `Triggers`, the queues and
--     `applyTriggers`. `Consensus.Manager.Loop` has the loop of `newManager`: its variables, one input
--     of its `select` as `take_input`, and the delivery of packets to their runs. The loop over fills has
--     as fuel the number of positions to fill, and the delivery is over the queue. `Consensus.System`
--     has the routing of a packet to its run, `handle` and `receive`, for the runs of one position. The
--     encoding of messages by protocol buffers is a parameter that is read back as it was written.
--   `Consensus.System` puts the nodes of one position together with every datagram sent so far. A
--     schedule delivers any of them at any time, any number of times or never, fires timers and
--     makes proposals. `Consensus.Safety` has an invariant for each part (`Promises`,
--     `Ballots`, `Tallies`), the argument of Paxos (`Agreement`), and the steps.
--
-- store/
--   store.go: `Store.Path` (`checkPath`, `split`, `join`) and `Store.Mutation` (`EncodeSet`,
--     `EncodeDel`, `decode`). `Store.Number` has the decimal texts of an int64; twenty rounds write
--     every digit of one.
--   node.go: `Store.Node` (the tree, `at`, `get`, `stat`, `set`) and `Store.Apply` (`apply`). The texts
--     of errors of other packages are a parameter. Every loop is over a list.
--   event.go: `Store.Event`. getter.go: `Store.Getter`, where `Walk` has as fuel the depth to which it
--     goes, since on a tree whose root is empty it does not end.
--   store.go: `Store.Process` has the loop of `process` as `step` on one input of its `select`, with
--     `notify`, and the queue as a sorted list. The inputs come in any order; the matching of globs
--     and the watches stopped at each turn are parameters. `clean_log` and `catch_up` run for as
--     many rounds as there are positions between their bounds.
--     `Store.Process.Steps`, `Queue`, `Replay` and `Progress` relate it to a log; `Watches` and `Notices` are
--     about watches.
--   glob.go: `Store.Glob` has the translation of a pattern to a regular expression; `Store.Glob.Regexp` has
--     the part of package regexp that such expressions use, and `Store.Glob.Meaning` says what a
--     pattern matches, without them.
--
-- server/
--   server.go: `Server.Request` (requests, responses, flags) and `Server.Handlers` with `get`,
--     `stat`, `rev`, `set`, `del`, `nop` and `checkin`, and `Server.Getdir`. A handler gives its replies; the
--     proposer, and whether a request is cancelled, are arguments. `Server.Propose` has `Set` and
--     `Del` of consensus/consensus.go and `Wait` of store/store.go. `Server.Transactions` has the table
--     of transactions with `serve`, `closeTxn`, `respond`, `cancel` and `cancelAll`; `Server.Watch`
--     has `watch`, `walk` and `cals`. The sockets are not modelled: whether a write succeeds is an
--     argument, and so is the number of files that a walk visits, and of entries that `getdir` lists,
--     before it sees a cancel. In `getdir` an int has 32 bits, as in the compilers of this code. A handler's
--     response is written by `respond` and marshalled with no other call's write between; the
--     constant responses are shared, and `Server.Shared` has calls whose accesses interleave.
--
-- client/client.go: `Client.Conn` has a connection's table of reply channels, with `send`,
--   `readResponses`, `close` and `cancel`. The search for a tag has as fuel one more than the number of
--   calls. `Client.Calls` has the methods, as the request that each sends and what it makes of a
--   response, and `Client.Addrs` has `monitorAddrs`, `connect` and `run`. `Client.Link` puts a
--   client and a server together: requests, handlers and replies, each with the channel of its call.
--
-- session/session.go, lock/lock.go, gc/: `Session`, `Lock` and `Gc`. Their walks are of `Store.Getter`.
--   A compiled glob is an argument.
-- doozer.go: `Start` has `Propose`, for the positions that a manager gives, with the store at each and
--   the events that it comes to apply, and `activate`, `advanceUntil`, `set` and `follow`, for the events
--   that a store or a client gives.
--
-- liveness.go: `Liveness`. member/member.go: `Member`.
--
-- Not modelled: sockets, clocks and random numbers, the wiring of channels in `Main`,
-- `SyncPath`, the web view, and the programs under src/cmd.
pub mod Common
pub mod Consensus
pub mod Store
pub mod Server
pub mod Liveness
pub mod Member
pub mod Client
pub mod Session
pub mod Lock
pub mod Gc
pub mod Start
