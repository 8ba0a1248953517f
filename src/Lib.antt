-- ===== src/Lib.antt =====
-- cevent, a network library in C: servers and clients that exchange packets of bytes.
--
-- The program. A server (src/cevent/cevent/ce_server.c) runs an event loop that accepts clients, reads
-- their bytes and hands them to the connection layer (ce_io.c); a client (ce_client.c) does the same
-- for its one connection from a receiving thread. The connection layer keeps, for each descriptor in
-- its dictionary, byte rings for what comes in and what goes out (ce_ringbuffer.c), and gives the work
-- of framing and sending to a pool of threads (ce_threadpool.c). ce_queue.c is a blocking queue beside
-- them, ce_sock.c, ce_log.c, ce_assert.c and ce_alloctor.c are what all of them call. A chat
-- application (src/chat/src) is built upon the server and the client.
--
-- The files.
--   Prelude      numbers, lists, tests, C's outcomes (`Run`: a value, a fault, or no return),
--                `memcpy` (Slices) and the operators on bits (Bits)
--   Shared       ce_shared.h and what the layers share: configurations, callbacks, effects, pointers
--   Ringbuffer   ce_ringbuffer.c. `Rb` is `struct ce_rb`; `read` and `write` are `ce_rb_read` and
--                `ce_rb_write` behind their NULL tests. Valid, Contents, Read, Write and Refine hold the
--                proofs: what lies in a ring, and what each call does to it, which is a case for calls
--                that come to the end of the storage (Long) and one for those that do not (Short).
--   Queue        ce_queue.c. `ce_queue_get` is cut where it sleeps: `get_enter` before, `get_wake`
--                behind. Branches is about one call, Threads about any number of threads. Signals adds the
--                condition variable; Wakeups, Served and Stolen are about who is woken.
--   Threadpool   ce_threadpool.c. `ce_tp_routine` is a step of a thread at a program counter `Pc`,
--                cut where it takes or gives up the mutex and where it runs a job. System is the pool
--                with its threads, Upto, Invariant, Kept and Safety the proofs, Create the loops of
--                `ce_tp_create`, Destroy the last loop of `ce_tp_destroy`, and Draining that loop
--                cut where clients may come in between. Wakeups adds the condition variable, and Joins
--                is about the threads of an aborted pool. Trace records the jobs that were run; Effect, Once
--                and Runs are about how often, Kills about what a destruction leaves. Told says what the
--                fields of a worker mean; Steps, Answers and Results are about the results that clients
--                get. A registration is the insertion under the mutex, as its test of `abort` is not.
--   Io           ce_io.c, in State, Calls and Processors. `Io` is `struct ce_io` with the heap of its
--                connections and the callbacks made so far; Get is `_ce_io_get`, which nothing calls.
--                Lost, Same, Quiet, Pending, Packets, Framing, Sends, Destory and Fresh hold the proofs.
--                `work` is a thread of the pool that takes one job and finishes it.
--   Server       ce_server.c. Startup, Made and Handlers hold the proofs on single calls; Pending and
--                Stop are about any sequence of the inputs that Inputs lists.
--   Client       ce_client.c: Connect holds the proofs on one call after the other, Waiting the steps
--                of `ce_client_connect` and of its thread in any order.
--   Log          ce_log.c: which lines are written (Levels), the name of the file in them (Paths), and
--                their bytes (Text), with the proofs in Numbers, Layout, Plain and Printed.
--   Crypt        ce_crypt.c, over the calls of OpenSSL; Lengths holds the proofs.
--   Bzip2        ce_bzip2.c over the calls of bzip2; Sizes holds the proofs.
--   Alloctor     ce_alloctor.c: the functions in use and the guards before them; Guards holds the proof.
--   Assert       ce_assert.c, with the line it writes by ce_log.c; Silence holds the proof.
--   Sock         ce_sock.c, as it is built where the system is not Windows; Options holds the proofs.
--   Base64       src/cevent/util/base64.c, with its tables as functions: Tables, RoundTrip and Codecs
--                hold the proofs.
--   Xhash        src/cevent/util/xhash.c for a long of 64 bits; Product holds the proof.
--   ChatMessage  src/chat/src/ChatMessage.cpp: the classes are one data type; Ids holds the proof.
--   ChatClient   src/chat/src/Client.cpp over Client; Login holds the proofs.
--   ChatServer   src/chat/src/Server.cpp over Server; Startup holds the proofs.
-- The modules Tests, and those whose names end so, run the definitions and apply the theorems at
-- concrete values.
--
-- How C is modelled. A call that comes to no end is `hangs`: `ce_io_new` with two workers or more, for
-- what Threadpool/Create proves of `ce_tp_create`. A fault is undefined behaviour: an access
-- outside an object, or through NULL or a pointer to something else. A pointer that may
-- be NULL is an option. Values of type `int` are integers with a sign. Sums and differences of the ring's positions wrap at 2 ^ 32
-- here, where C leaves an overflow undefined: that is no difference for rings of at most 2 ^ 30 bytes,
-- whose sums are below 2 ^ 31, and beyond them the model goes on where C need not. A pointer of
-- the connection layer says what it points to, since the program reads one that points to something
-- else; an address in memory is eight bytes and a size two, low byte first. A variable that is read
-- before it is set is an argument: what the memory held.
--
-- Assumptions. Assertions are off, as in a release build, but in Assert. Allocation of a positive size
-- succeeds, but in Alloctor. The dictionary, a copy of another project's code, is the parameter `Env` of
-- Io with its documented laws over keys that are compared by the descriptor that they show;
-- Io/Dictionary has one that meets them. That `dictDelete` frees the key it takes out, which for
-- the address of a parameter is a fault of its own, is behind that parameter and not followed.
-- What the system, the network and the event loop answer are parameters of Server and Client. The calls
-- of OpenSSL are the parameter `Ssl` of Crypt, those of bzip2 `Bz` of Bzip2, those of the system on
-- sockets `Os` of Sock, the functions of the allocator `Functions` of Alloctor, and what `fprintf` does
-- from a '%' on the `conversion` of Log. Condition variables may wake without a signal; semaphores count.
--
-- Bounds. The loops over packets and over chunks run on fuel: one turn more than there are bytes in the
-- ring, as each turn but the last reads at least one. The outer loops take one round more than there
-- are bytes in their ring of events.
--
-- Not modelled: calls of Io, Server and Client that overlap, and the locks of a connection; the
-- interfaces and the main programs of the chat application and what in it is empty; the other files of
-- src/cevent/util and 3rdparty, copies of other projects' code; the compatibility headers for Windows.
pub mod Prelude
pub mod Shared
pub mod Queue
pub mod Ringbuffer
pub mod Threadpool
pub mod Io
pub mod Server
pub mod Client
pub mod Log
pub mod Crypt
pub mod Bzip2
pub mod Base64
pub mod Xhash
pub mod Sock
pub mod Alloctor
pub mod Assert
pub mod ChatMessage
pub mod ChatClient
pub mod ChatServer
