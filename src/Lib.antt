-- ===== src/Lib.antt =====
-- Verification library of ServerDevLib, a header-only C++ library for network servers: an epoll
-- event loop with channels (include/server/reactor), a thread pool (include/server/threadpool),
-- asynchronous logging (include/server/logging), and buffered devices, files and sockets
-- (include/server).
--
-- How the parts work together. A Dispatcher waits on a Demultiplexer (epoll) and keeps a Handler for
-- every descriptor. An event on the master descriptor accepts a connection, which gets a Channel, its
-- buffers, and an EventsHandler; an event on another descriptor becomes a task of the ThreadPool,
-- whose worker calls Read or Write of the channel. When data has come, the channel tells the
-- NotificationCenter, whose HandleReadyData, called by the application's thread, gets each channel
-- with data from the dispatcher (GetChannel) and hands its data on to the pool. IODevice is the
-- buffered device below sockets and files.
--
-- Files, and the code they are about (files named without a directory are in include/server):
--   Base                   shared names, lists over the native numbers, masks, association lists (for
--                          std::map and std::unordered_map), signed return values, the codes of a text
--   Io.Device              IODevice.h: record IoDevice for the members; read, write, peek, seek,
--                          skip_some for the methods of these names; the virtual functions as an
--                          interface Driver. Ring has the invariant, Peek, Fill, Read the proofs
--   Io.File                File.h: record File over a stream with one position and a failure flag; write,
--                          read and read_all for the methods of these names. Access and Stuck have the
--                          proofs
--   Reactor.Notification   reactor/NotificationCenter.h: the map of ready states; Barrier is its spin
--                          lock under any interleaving of threads, Pending the proofs on the map
--   Reactor.Channel        reactor/Channel.h: read, write, notify_write_event and get_received_data;
--                          Receive (over Loop), Total (over Room and Shown), Ending, Send and Inactive
--                          have the proofs, Honest what they ask of a socket
--   Reactor.Demultiplexer  reactor/Demultiplexer.h: the guards and the system calls made, as a trace
--   Reactor.Dispatcher     reactor/Dispatcher.h: one function for each method, over association lists
--                          of handlers and channels; a channel object is a number. Run is the loop
--                          Dispatch with the calls of other threads between two events, Slaves the
--                          loop of a slave. Connection, Shutdown and Run.Agree have the proofs
--   Reactor.EventsHandler  reactor/EventsHandler.h: handle_event over the channel
--   Reactor.Delivery       how received data gets from an event to the tasks of the application, over
--                          reactor/EventsHandler.h, Channel.h and NotificationCenter.h: Handed, Due, Kept,
--                          Refines and Arrival have the proofs
--   Threadpool.Pool        threadpool/ThreadPool.h: what a thread does between two points at which
--                          another may run is one action, and a run is a list of actions of any
--                          threads. Order, Serve, Shutdown, Join and Start have the
--                          proofs
--   Threadpool.Monitor     the same file: GetThredShold, Monitor and the decisions of Adjust
--   Threadpool.CpuStats    the same file: GetCPUStats as it reads a line of /proc/stat, and what Init
--                          and Monitor make of it; Fields and Once have the proofs
--   Threadpool.Reap        the same file: how Adjust drops idle workers
--   Threadpool.Global      the same file: GetGlobalThreadPool, one statement of one thread at a time; Once
--                          has the proofs. GetLogger of logging/Logging.h has the same statements
--   Threadpool.Timer       threadpool/Timer.h: one function for each method; Rounds and Calls have the
--                          proofs
--   Logging.Stream         logging/LogStream.h and LogMessage.h: the buffer of fixed size, and how a
--                          message is finished and sent
--   Logging.Logger         logging/Logging.h: the double buffer of Logger; each of Buffering, what Flush
--                          does under the lock, a round of its loop, and the destructor is an action.
--                          Order and Ending have the proofs
--   Logging.Format         how numbers, columns and times are printed, by logging/LogFile.h (GetLocalTime)
--                          and logging/LogMessage.h (Init); Digits and Stamp have the proofs
--   Logging.Message        logging/LogMessage.h: a message from its construction to the logger; Trace is
--                          the stack trace of a FATAL one
--   Logging.Lifetime       the same file: the message objects and the Data they own, on an explicit
--                          store; construct, move_construct, move_assign and destruct for the special
--                          members. Owned and Arrives have the proofs
--   Logging.FileName       logging/LogFile.h: InitFileName, the name of a log file
--   Logging.LogFile        logging/LogFile.h: Flush and Rotate over a disk of named files
--   Logging.Journal        LogMessage.h and LogFile.h together: a message from its construction to the
--                          bytes of a log file
--   Logging.Settings       logging/Logging.h and LogFile.h: the settings, and the functions that write them
--   Logging.Sinks          logging/Logging.h: AddLogSink and the loop over the sinks, one sink at a time;
--                          logging/SysLog.h; Since has the proofs
--   Tcp.Server             TcpServer.h and Address.h: one function for each method, the system calls as
--                          a trace; Clients and Once have the proofs
--   Tcp.Socket             TcpSocket.h: a connection as an instance of the interface of Io.Device, over
--                          the socket of Reactor.Channel; Delivery has the proofs
--   Example.Reply          example/ReactorExample.cpp: the loop that answers messages; Once has the proofs
--   Example.Gather         example/TcpServerExample.cpp: the set-up, the loop that accepts connections,
--                          and what is done with each; Accepted has the proofs
-- A child module called Tests holds runs on concrete inputs.
--
-- Parameters. The virtual functions of IODevice, the socket of a channel, std::string::reserve, the
-- arithmetic on double, the callback of a timer and what other threads do while it sleeps are
-- arguments; the theorems name what they rely on (IsHonest and the laws of Reserve); nothing is asked
-- of double. The results of system calls whose value only is used are arguments, as are the clock,
-- the host, the process, the text of /proc/stat and the symbols of a stack trace.
--
-- Bounds. Sizes are natural numbers. The model writes out where an unsigned counter of the code wraps
-- around: those of Adjust are kept modulo 2 ^ 8, that of Timer modulo 2 ^ 64. The count of received
-- bytes of a channel is an int, whose overflow is undefined: the model is of channels that count
-- fewer than 2 ^ 31 bytes. The loop of Channel::Read runs on fuel, and more fuel than pending bytes
-- is enough, since each round but the last takes at least one byte. The loop of Timer::Start runs on
-- fuel too, one unit for each round and one for the last test. A run of the message objects, of the
-- pool or of the dispatcher is a list or a derivation of calls, of any length. Numbers are printed
-- with fuel for 20 digits, which those below 2 ^ 64 do not exceed.
--
-- Threads. Notification.Barrier, Threadpool.Pool, Threadpool.Global, Logging.Logger and Logging.Sinks
-- take every access to a shared variable as one step, in any order of the threads; what the C++
-- memory model says of a data race is not modelled. A thread of the pool that takes the front of an
-- empty queue, which is undefined, is broken for good, and the model of the queue says nothing from
-- there on; a sink that is added inside the loop over the sinks is likewise the end of what the model
-- says of the sinks.
--
-- Not modelled: the set-up of ReactorExample.cpp, and the other examples and benchmarks, which only call
-- the library and print; what a slave registers with its own epoll descriptor.
pub mod Base
pub mod Io
pub mod Reactor
pub mod Logging
pub mod Tcp
pub mod Threadpool
pub mod Example
