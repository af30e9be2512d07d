-- ===== src/Lib.antt =====
-- libiocp: an asynchronous network library over Windows completion ports (inc/sglib/).
--
-- Parts. A session (inc/sglib/iocp/iocp_session_ioT.h, iocp_session.h) sends and receives framed
-- packages through two byte rings (iocp_buffer.h). The worker threads of a completion port hand it
-- the completions of its transfers, and it puts notices on the message queue (iocp_queue.h, a
-- queueT of inc/sglib/sglib_queueT.h), from which the loop of the application (iocp_loop.h) takes
-- them. The boss of the sessions (iocp_session.h) makes them and keeps them in a vector. The file
-- of queueT has two more queues, one with a bound and one on a ring. Two example programs
-- (examples/server/server.cpp, examples/client/client.cpp) are built on all this: the server sends
-- a file in pieces, and the client writes it to copies.
--
-- Files. Base: shared names, lists as memory and their cuts (Cuts), tests. Iobuf: class iobuf, with
-- its invariant (Valid), the bytes it holds (Contents), the copies out (Copy), the transfers in
-- (Fill), and rings up to their bytes (Abstract, Steps). Frame: header_t in memory (Layout). Queue:
-- class queueT call by call (Fifo), shared by threads (Threads), and who is woken (Wake). Bounded:
-- class queue_boundedT (Threads, Wait). Ringbuf: class ringbufT (Contents, Fifo, Threads with Sound
-- and Wait). Package: NET_status and package_t. Registry: the vector `_sessions`. Boss:
-- iocp_session_boss (Ids, Sockets, Walking). Loop: iocp_loop (Dispatch, Running). Listener:
-- listener_socketT (Limit) and peer_socket (Peer). Server: iocp_server (Lifetime). MsgQueue: class
-- msg_queue. Port: the worker loop of class iocp and the close of its port (Close). Connector:
-- iocp_client (Opening). Blocking: libsocket of inc/sglib/iocp/sglib_socket.h (Loops). Session: the
-- state and the notices (State), the transfers (Io), the calls of the application (Api), and the
-- proofs: Extract, Deliver, Arrival and Reassembly on receiving one package, Reader and Stream
-- (Outcome, Order) on a stream of them, Staging, Sending and Drain on sending, Crossing on both
-- ends together, Commuting (Logs, Halves, Runs, Orders) on completions in any order, Address
-- (Decimal, Reading) on the text of the address of the peer, Closing and Ending on the end of a
-- session. Text: the string functions (Find, Trim, Split, Paths, Formatting, Convert, and Scanning
-- with its Parts). App: the example programs (Server, Client), the file they copy (Copying), a file
-- that the client closes twice (Freed) and the loop and the ends of main (Main: Turns, Ending, and
-- Connecting for the client, with Leak). Sync: mutexes, events and conditions (Lock) of
-- inc/sglib/thread. Thread: class thread (Running). Pool: class thread_pool (Serving, Abort,
-- Status). Reference: the counts of inc/sglib/sglib_refT.h (Balance, Threads) and
-- sglib_singletonT.h. Utility: the macro of inc/sglib/sglib_utility.h (Bits, Align). Tests: inputs
-- at which the theorems apply.
--
-- Correspondence. A function has the name of the C++ member in snake case; a member that changes
-- its object returns the new record. A pointer into a buffer is its offset, a session pointer the
-- id of the session, memory a list of bytes. Where a member waits, it is cut at the wait: each
-- piece between two locks of the mutex is a function, and threads interleave such pieces as steps
-- of a relation. A completion is handled by one worker from start to end, and those of one session
-- one by one, as the code asks of its users. What WSARecv, WSASend and GetLastError return is an
-- argument, and what WSARecv writes is a hypothesis (Iobuf.Fill.Filled). The calls to the system
-- are recorded in the world of the session. ASSERT does nothing, as in a release build.
--
-- Bounds. Lengths and counts are natural numbers: but for the length of a message to send the code
-- adds no two that could reach 2 ^ 31 while the buffers are below 2 ^ 30 bytes. The size field of a
-- header is its 32 bits, read as the code reads the int. The length of a message to send wraps with
-- its header, as an int: the test of `send` passes from 2 ^ 31 - 8 bytes on, and the theorems on
-- sending ask for less. Only `run_loop` of the application's loop and `main_loop` have a bound, on
-- their turns: for `run_loop` one turn for each package is enough (Loop.Running).
--
-- Characters are numbers, and a text is a list of them; what std::string does where it throws, or
-- leaves undefined, is `none`. In the example programs fopen and the file that the server reads are
-- arguments, and memory that a program lends to recv is read back from the session.
--
-- Not modelled: the connect of libsocket, which does not compile, what is under #if 0, the SDL forms
-- of threads and mutexes, which do not fit the present classes, and the printing of the example
-- programs. _vsnprintf, sscanf and the streams of the C++ library are arguments.
pub mod Base
pub mod Iobuf
pub mod Queue
pub mod Frame
pub mod Package
pub mod Registry
pub mod Session
pub mod Loop
pub mod MsgQueue
pub mod Boss
pub mod Bounded
pub mod Ringbuf
pub mod Listener
pub mod Server
pub mod Port
pub mod Text
pub mod Utility
pub mod App
pub mod Connector
pub mod Blocking
pub mod Sync
pub mod Thread
pub mod Pool
pub mod Reference
