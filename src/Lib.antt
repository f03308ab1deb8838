-- ===== src/Lib.antt =====
-- A verification library for a collection of small Linux C programs: timers, pools, queues and the
-- other building blocks of a server. Each program stands alone in its folder; the timers' folder
-- has one client program for each data structure. A module is named for the part it models, its
-- children for what they prove, and a child Tests holds concrete runs.
--
-- Common holds the shared names: Boolean tests, lists measured by the native numbers, memory as a
-- function from addresses, and runs that may fault (`none`), with the predicate Returns for a run
-- that ends well.
--
-- MinHeap models 3.2.3定时器红黑树最小堆跳表时间轮/minheap.c and minheap.h: min_heap_push_ is push, and so on for
-- each function. The slots `p` and the entries behind the pointers are memory; an access past the
-- `a` allocated slots faults, so that Returns states memory safety as well. The sifting loops carry
-- fuel: one more than the hole's index upwards, one more than the number of entries downwards, and
-- the theorems show that it suffices. A heap has less than 2^31 entries in the theorems, below
-- which the child index `2 * (i + 1)` on 32 bits does not wrap. realloc is a parameter, the answer
-- whether memory is given. min_heap_dtor_ only frees and is left out.
--
-- HeapTimer models mh-timer.h over MinHeap: add_timer, del_timer, find_nearest_expire_timer,
-- expire_timer. The clock, malloc and the callbacks are parameters; printing is left out.
--
-- TimeWheel models timewheel.c and timewheel.h: the lists of the near wheel and of the four levels
-- are lists of node addresses, the nodes are memory. What callbacks and other threads do while the
-- lock is free, between two ticks and while nodes are taken out, enters as a function of these
-- nodes and the state; the theorems let it be any sequence of add_timer, of nodes that are not
-- taken out, and del_timer. timer_execute needs two rounds, timer_shift four, which the theorems
-- show; nobody but expire_timer advances the time. The spin lock itself, and the memory that free
-- gives back, are not modelled.
--
-- Deadlock models 3.2.5死锁检测组件/deadlock_success.c: the hooks lock_before, lock_after and
-- unlock_after as steps on the task graph, each under the program's mutex, and the search from
-- check_dead_lock down to DFS (dfs). DFS has as fuel one more than the number of vertices, enough
-- since each call that goes deeper marks a vertex. Pairs of a chain that are no vertex fault, as
-- does a hook that needs more than MAX, 100, vertices or locks.
--
-- MemoryPool models 3.1.2内存池mempoll/mempoll.c: blocks, the list of large allocations and the calls
-- of free. What posix_memalign answers is an argument, as are the fields of new memory that C does
-- not set. The bytes of an allocation are not modelled.
--
-- Websocket models 2.1.4websocket/websocket_reactor.c: the frames (Websocket), the handshake and
-- the state machine (Server), the reactor's table of events (Table), and recv_cb, send_cb,
-- accept_cb and a round of the loop (Callbacks). A buffer is a function of the offset with 4096
-- bytes, and an access behind it faults, as do memcpy and strcpy of overlapping ranges. What recv,
-- send, accept and malloc answer, and SHA1 with base64, are arguments. recv's loop recurs on the
-- answers, ntyreactor_find_event_idx on those of malloc, and the search for the key on one more
-- than the length of the text.
--
-- Dns models 3.1.3异步请求池asyncpoll/async_dns_client_noblock.c: dns_create_question is
-- create_question, and so on for each function on messages. Messages are lists of bytes, a pointer
-- is what remains of the message from it on, and an access behind an array faults. dns_parse_name
-- has fuel for its rounds and its own calls together: the number of labels, one for each pointer,
-- and one for the end are enough. malloc's memory, random and inet_ntop are arguments. Sockets and
-- threads are left out.
--
-- ThreadPool models 3.1.1线程池threadpoll/threadpoll.c: a step is a turn of one thread, up to its next
-- access to what the threads share; a critical section with one such access is one turn. The
-- clients' turns are thread_poll_push_task, the rounds of thread_poll_create and of thread_destroy.
-- LL_ADD and LL_REMOVE are ll_add and ll_remove on nodes in memory. pthread_create, malloc and the
-- choice of pthread_cond_signal are arguments.
--
-- SingleWheel models 3.2.3定时器红黑树最小堆跳表时间轮/single_tw.c: heartbeats (add_conn) and checks
-- (check_conn), the lists of the wheel as lists of the indices of nodes, the arrays as memory of
-- MAX_TIMER and MAX_CONN entries. The searches for a free node carry fuel and fault without;
-- nothing here says that they end, which they do not once every node is taken.
--
-- Http models http_request and http_response of 2.1.3http/httpserver.c. Texts are the C strings in
-- the buffers; what the file system says of a resource and the decimal text of a size are
-- arguments. The callbacks and the reactor are left out.
--
-- Exceptions models 3.2.2try-catch/try-catch.c. The macros are the statements of a small language
-- and the machine that runs them keeps the stack of frames; Exceptions.Reference says what they do
-- without a stack, and Exceptions.Structured what structured exceptions mean, with a last block
-- that always runs; the two agree where no handler of a Try with a Finally throws. Frames, flags
-- and jumps are those of the macros; leaving a Try by break, return or goto is left out.
--
-- Packets models 2.4.1udp icmp arp/udp_icmp_arp.c: the packed headers as bytes, str2mac, in_cksum,
-- the replies and a round of the loop of main from the bytes of a packet to the packet sent. A read
-- or write behind the slot is a fault. netmap and poll are left out.
--
-- LockFree models 3.2.4无锁队列freequeue/ArrayLockFreeQueueImp.h: LockFree.turn is one access of a
-- thread to the shared memory, by its place in enqueue or dequeue, and LockFree.Reached are the
-- queues that turns in any order lead to. Memory is sequentially consistent; the lists of the
-- elements that entered and left are added for the statements.
--
-- RedBlack models 1.1.1红黑树/main.cpp: rbtree_search, rbtree_mini, rbtree_maxi and rbtree_traversal,
-- on fuel above the height of the shape in memory, and rbtree_left_rotate. The right rotation,
-- insertion and deletion are left out.
--
-- Not modelled: the other C++ programs, the copies of other projects (NtyCo, the BSD tree and queue
-- macros, the skip list of Redis, ZeroMQ), generated and third-party code (protobuf, nginx), the
-- network programs that consist of system calls, and main functions that only drive the parts
-- above.
pub mod Common
pub mod MinHeap
pub mod HeapTimer
pub mod TimeWheel
pub mod Deadlock
pub mod MemoryPool
pub mod Websocket
pub mod Dns
pub mod ThreadPool
pub mod SingleWheel
pub mod Http
pub mod Exceptions
pub mod Packets
pub mod LockFree
pub mod RedBlack
