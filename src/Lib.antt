-- ===== src/Lib.antt =====
-- learn-note: the network library, the timer, the memory pools and the pool of database connections
-- among the C++ projects of these notes, and those of the smaller programs that keep a state or compute
-- something.
--
-- cpp_learning_projects/muduo-mgkl is a reactor. A `Buffer` holds the bytes of one direction of a
-- connection; a `Channel` is a descriptor with the events that it waits for; an `EPollPoller` tells the
-- kernel of its channels and hands back the active ones; an `EventLoop` runs the callbacks of the
-- active channels, then the functors that other threads queued; a `TcpConnection` moves bytes between
-- the kernel and its buffers; an `Acceptor` takes new connections; a `TcpServer` names them and spreads
-- them over an `EventLoopThreadPool`. Muduo/Buffer.antt models include/Buffer.hpp and src/Buffer.cpp,
-- Muduo/Channel.antt and Muduo/Poller.antt the classes of those names, Muduo/EventLoop.antt the loop,
-- Muduo/TcpConnection.antt the connection, Muduo/ThreadPool.antt, Muduo/Acceptor.antt and
-- Muduo/Server.antt the server's side, and Muduo/LoopThread.antt the thread of a loop
-- (src/EventLoopThread.cpp, src/Thread.cpp). Functions keep their names, in this spelling: `sendInLoop`
-- is `send_in_loop`, `connectDestroted` is `connect_destroyed`, and the `enableReading` family of a
-- channel with the `update()` behind it is `Poller.change`.
--
-- How state is modelled: a class is a record, an operation a function from the record to the next; a
-- pointer is a number, and channels live in a store, since poller, connection and acceptor share them.
-- What a system call answers is an argument of the operation that makes the call (`Syscall`: a result
-- or an `errno`). A `size_t` is a number with its wrap-around at 2^64 written out; theorems on buffers
-- ask that sizes stay below the limit of a vector, 2^63 - 1. What users' callbacks do is not modelled:
-- that they are called is recorded. The functors of a loop are of any type, and what they queue is an
-- argument. Interleavings of the threads of a loop are the steps of Muduo/EventLoop/Turns.antt: an
-- access to the queue under the mutex is one step, and the wake-up after its release another.
-- Muduo/TcpConnection/Life.antt lets the loop, the server and the user of a connection take steps, and
-- Muduo/Server/Lifecycle.antt a server and the loops that run its jobs. The loops of this library run
-- over lists, without fuel.
--
-- cpp_learning_projects/Timer-mgkl is a timer: Timer.antt models include/timer.h, a queue of tasks by
-- time, with include/hash_map.h, the ids that are not cancelled. A read of the clock and the contents
-- of a field that is left unset are arguments. The line of the source that would post a callback is
-- commented out, so that none runs; a turn ends at the unlock before it.
--
-- cpp_learning_projects/memory-mgkl has two memory pools. Memory/SlotPool.antt models
-- src/MemoryPool.cpp: blocks of equal slots, with a free list. Memory/SizeClass.antt
-- (include/Common.hpp), Memory/PageCache.antt, Memory/CentralCache.antt and Memory/ThreadCache.antt
-- (the sources of those names) model the other: spans of pages come from `mmap` and are split and
-- joined; each thread has free lists by size, filled from the central ones, which cut spans of pages
-- into blocks. The memory is a function from addresses to the words there, and Memory/Chain.antt says
-- what a chain of blocks is. Two loops run on fuel: a list that a thread fetches is counted up to 4096
-- blocks, as many as a span of 8 pages can hold, and a span is looked for in a list over as many steps
-- as spans were made. What `mmap`, `operator new` and `malloc` give is an argument, and so is, for the
-- central cache, what the page cache gives.
--
-- cpp_learning_projects/DBCP-mgkl is a pool of database connections. Dbcp.antt models
-- src/ConnectionPool.cpp, each operation as what it does under the mutex, and Dbcp/System.antt lets
-- users, producer, scanner and the closing thread take turns. A connection is known by the number under
-- which it was made; reads of the clock are arguments. The scanner runs any number of rounds.
--
-- CppConcurrencyProgramming: Concurrency/Workers.antt models ThreadPool.cpp, its queue of tasks and its
-- threads, with their turns as steps; the owner submits nothing once it destroys the pool. A wait on a
-- condition variable is a turn that can be taken once the condition holds, which every change of it is
-- notified of.
--
-- misc/my_shared_ptr.cpp: SharedPtr.antt models the class of that name as a heap of counters with
-- handles; an `unsigned int` wraps around at 2^32.
--
-- Algorithm: Algorithm/Sort.antt models Sort.cpp, Algorithm/Cycle.antt, Algorithm/Merge.antt and
-- Algorithm/TwoPointers.antt the cycles, `mergeRecursive` and `findFromEnd`, and the functions with an
-- index from each side of LinkedList.cpp, and Algorithm/Subset.antt the first `canPartition` of
-- DynamicProgramming.cpp. Algorithm/Dijkstra.antt models `dijkstra` of graphy.cpp, whose sums are
-- numbers with a mark of those that leave `int`, and Algorithm/Courses.antt its `findOrder`, with the
-- first `canFinish` in Algorithm/Courses/Finish.antt; their `traverse` runs on fuel, of which one more
-- than there are courses is enough. Algorithm/Circuit.antt models `canCompleteCircuit` of greedy.cpp,
-- where a difference is a pair, with a mark of one that leaves `int`; `canPartition` has no answer
-- where the sum leaves `int`. An `int` that is only compared, or added and compared, stands as its
-- distance from the least one; overflow of an `int` is not modelled elsewhere. Loops on an array run on
-- as much fuel as it has values, which the proofs show to be enough; those on a linked list on any fuel
-- from a bound on that its shape gives.
--
-- cpp_learning_projects/30dayMakeCppServer, day12: EchoServer/Echo.antt models the bytes of a
-- connection of the echo server (src/Connection.cpp, src/Buffer.cpp) and of its client (client.cpp).
-- The answers of `::read` and `::write` are lists, so that the loops need no fuel; a list that ends is
-- a call that still waits. The copy of the message that `send` makes runs over its array by a byte,
-- which is counted; what that byte overwrites is not modelled.
--
-- Not modelled: sockets, addresses, time stamps and the logger of muduo-mgkl, which wrap system calls;
-- the configuration and the MySQL client of DBCP-mgkl, and json.hpp, a copy of a library; the other
-- functions of Algorithm, of which some do not compile; `SafeSharedPtr`, which does not either; the
-- bank transfers of CppConcurrencyProgramming, whose amounts are of type double; the small programs in
-- BoostLearn, CppConcurrencyProgramming and misc that try out a library or a feature and keep no state;
-- and the rest of 30dayMakeCppServer, versions of a reactor that muduo-mgkl has in full.
--
-- Prelude.antt and its children pass on the names of the standard library and hold what the parts
-- share: Boolean tests, lists by index, how often a number occurs, arrays and machine words.
pub mod Prelude
pub mod Algorithm
pub mod Concurrency
pub mod Dbcp
pub mod EchoServer
pub mod Memory
pub mod Muduo
pub mod SharedPtr
pub mod Timer
