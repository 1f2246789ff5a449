-- ===== src/Lib.antt =====
-- A model of the program in src/src, which broadcasts messages over UDP in FIFO order with uniform
-- reliable delivery: of one process, and of several together; and proofs about it.
--
-- The parts, from the network up, and the files that model them:
--   Udp            src/src/src/udp_server.cpp: the server hands each datagram to the observers that were
--                  attached for the machine it came from.
--   Bytes          the four bytes of an `unsigned int`.
--   PerfectLink    src/src/src/perfect_link.cpp, class PerfectLink, an observer of the server. Codec has
--                  the wire format, Link the state and `Send`, `SendMessages`, `SendAcks`,
--                  `CleanAcks` and `Notify`. Channel puts two ends on a network that loses, repeats,
--                  delays and reorders datagrams; Packets, Sender, Receiver, Linked and Delivery prove
--                  what the two ends do; Life and Forgetting are about the times after
--                  which a link forgets.
--   Manager        src/src/src/perfect_link.cpp, classes Manager and BasicManager: a process's links.
--   Broadcast      src/src/src/broadcast.cpp and src/src/src/best_effort_broadcast.cpp: Types and Codec have
--                  the message and its wire format. The virtual functions that a subclass overrides
--                  are the fields of the record `Upper`.
--   DeliveredSet   src/src/src/uniform_reliable_broadcast.cpp, class DeliveredSet: Refinement proves that
--                  it is a set of message ids.
--   Uniform        src/src/src/uniform_reliable_broadcast.cpp: each handler is a function on the record
--                  `Uniform`. Run has the runs of a process; Sound, Acks, Origin, OwnCount, Window,
--                  Refill, Agreed, Held and Holds have the invariants, Agreement, Flow, Progress,
--                  Rounds and Relays the theorems on runs.
--   System         the properties URB1 to URB4 that src/src/include/uniform_reliable_broadcast.hpp promises
--                  of all processes together: several processes, each with the handlers of Uniform,
--                  of which any may stop. Origin is about who broadcast a message, Holders about who
--                  holds it, Settled about what becomes of it in the end, Configured the same for
--                  the processes of a hosts file.
--   Fifo           src/src/src/fifo_broadcast.cpp, the two `DeliverInternal`. Release is about the loop,
--                  Peer and Prefix about one author's messages, Order and Accepted about the whole log.
--   UniformFifo    src/src/include/fifo_broadcast.hpp, UniformFIFOBroadcast: Uniform with the
--                  `DeliverInternal` of Fifo; Order is about whole runs, Backed about what the log of
--                  a process has to do with what was delivered.
--   ReliableFifo   the other FIFO class, over best effort broadcast.
--   Parser         src/src/src/parser.cpp: Lex reads numbers and words, Address finds the
--                  address of a host, Access has the getters, Arguments is about the command line, Hosts
--                  about the hosts file, Config about the configuration file, Parsed about
--                  `Parse`.
--   Drivers        src/src/src/drivers.cpp and src/src/src/main.cpp: the drivers, `StopExecution` and
--                  `main`.
--                  Connected is about the links that a driver makes, Running and Links about the
--                  two drivers' processes, Program and Outcomes about `main`.
--   Node           a whole process: from a datagram at the server, through `Notify` of the link, to the
--                  handlers of Uniform. Runs shows that its runs are runs of these handlers, Strangers
--                  is about datagrams from elsewhere.
--   Network        the whole program on several hosts: a Node for each host, and the datagrams that they
--                  have sent. Queues, Sending, Walks, Covered, Incoming and Steps show what the links
--                  carry and where it comes from, Refined that its runs are runs of System. Ends,
--                  Phases, Moving, Arrivals, Joined and Roomy follow both ends of each link, as in
--                  PerfectLink; Delivers is about what becomes of a message in the end, and
--                  Logs the same for what the processes' logs say. Fitting and Fits are about the
--                  sizes of what is sent.
--   Logger         the log, a list of lines; Lines has their text, and how tools/validate_fifo.py reads
--                  it.
--   Tests          runs on small inputs.
--   Prelude        what the modules share: Boolean tests, lists, maps, sets, runs of numbers
--                  and majorities.
--
-- Numbers: an `unsigned int` is a natural number whose increments are reduced modulo 2^32. A counter
-- of messages is taken to stay below 2^32 - 1, which the steps of a run ask for; nothing else is
-- assumed of it. A clock shows any number of seconds. Every loop of the program goes through a list or
-- counts to a number, except those that run while `on_` is set, and of those one round is a function. The
-- one function with a bound is the writing of a number, which has ten digits for an `unsigned int`.
--
-- Concurrency: the network and the scheduling of the threads are sequences of steps in any order, where
-- one step is one call of a handler, or one round of `DeliverPending` for one id. Interleavings inside
-- a handler are not modelled; neither are the locks. An unordered container is a list, so the order in
-- which it is gone through is the list's; the round of `DeliverPending` takes any pending id.
-- In the runs of Uniform the members of the links change between the handlers in any way, and in those of
-- System a message comes in only from a process that holds it. Network has the links themselves: it shows
-- that this is so, and needs only that the network makes no datagram up and changes none, and that no
-- other program sends under the address of a host. A datagram on its wire may come in at its receiver any
-- number of times, at any later time, or never.
--
-- The parser's files are the lines that a parameter gives for a path, and what comes of the look-up of a
-- host is a parameter too, which Address says of the operating system's functions. Numbers and words are
-- read as the C locale reads them.
--
-- What C++ does not define: a look-up that fails frees a pointer that was never set, which is an outcome
-- of its own (`freed_unset`, `undefined`, `undefined_outcome`). The model does not follow the program past
-- two other such points. A message that is longer than the buffers of `SendMessages` and
-- `BestEffortBroadcast::SendInternal` is written beyond them: Network lets processes broadcast only
-- messages that the buffers hold, and theorems that depend on the length of others ask for it. And for
-- a second host with the same id the driver destroys a link that the server still knows: where the
-- model has such hosts a process is that of an id, and theorems that need one for each host ask for
-- different ids.
--
-- The drivers: the main thread makes its calls of `Send` before any other thread takes a step, which is
-- one of the orders in which a run has these calls. Whether a socket can be bound is a parameter.
--
-- Not modelled: sockets, threads, signals, sleeps, files, debug output, src/src/src/info_display.cpp and
-- src/src/src/udp_client.cpp. The message taken from the queue of own
-- messages is the one at its front; that the program reads it through a reference which `pop` makes
-- invalid is not seen here.
pub mod Prelude
pub mod Logger
pub mod Bytes
pub mod Udp
pub mod PerfectLink
pub mod Manager
pub mod Broadcast
pub mod Fifo
pub mod DeliveredSet
pub mod Uniform
pub mod UniformFifo
pub mod ReliableFifo
pub mod Drivers
pub mod Node
pub mod Network
pub mod System
pub mod Parser
pub mod Tests
