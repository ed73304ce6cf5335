-- ===== src/Lib.antt =====
-- zysoft, a C++ library: networking over asio (zysoft/net/) and utilities (zysoft/zysoft/). This
-- development models the parts that have logic of their own, as functions on records, and proves what
-- they promise.
--
-- The parts and their files:
--
-- * Net/Connection is `tcp_connection` of zysoft/net/tcp_connection.h. The record `Conn` is the object
--   without its loop and its socket; every handler and every call is a function of it, under its own
--   name (`handle_read`, `send_in_loop`, `connect_cleanup` and so on). Whatever leaves the class is
--   written to a log of effects. `step` and `run` of Net/Connection/Handlers take the events of the
--   loop's thread (completions, timers, posted work, calls of the application) to the handlers, in any
--   order in which asio and the timer queue can bring them (`AllEnabled`). An application callback is
--   the list of calls that it makes.
-- * Net/Buffer is zysoft/net/buffer.h, through Memory/FlatBuffer, whose text is the same; Net/Buffer/Search
--   is the search of zysoft/net/utility.h.
-- * Net/EventLoop is zysoft/net/event_loop.h: its thread runs the work that waits, in any order, and any
--   thread may hand over more or quit.
-- * Net/LoopPool is zysoft/net/event_loop_thread_pool.h, and Net/LoopPool/Start its start together with
--   zysoft/net/event_loop_thread.h: the caller of `sync_start` and the threads take their steps in any order.
-- * Net/Acceptor is zysoft/net/acceptor.h, where any call of asio may throw. Net/Server/Startup is `start` of
--   the server, which puts the pool, the acceptor and the server together.
-- * Net/Log is zysoft/net/log.h and log.cpp.
-- * Net/Server is `tcp_server` of zysoft/net/tcp_server.h: the map of connections, the accept handler, the
--   dispatch of a cleanup and the removal. Net/Server/Runs takes the events to them, and its invariant. Net/Address
--   is zysoft/net/inet_address.h, with the names that the map goes by.
-- * Net/System is a server together with the connections that it accepted: a handler of a connection that
--   calls the cleanup callback calls the server, and the server's work on the loops comes as later events.
-- * Net/Client is zysoft/net/tcp_client.h with zysoft/net/connector.h: a client and its connection, where a
--   caller that waits for the connect may look at the promise between any two events. Net/Client/Cleanup is
--   its handling of a cleanup, which nothing calls.
-- * Net/TimerQueue is `timer_queue` of zysoft/net/timer_queue.h, whose callbacks may call it;
--   Net/TimerQueue/Alarms is what it promises, a map from handles to alarms.
-- * Net/Timeouts is a connection with its read timer in the alarms of such a queue, where its ticks come
--   between the other events in any order.
-- * Timer/Wheel is `timing_wheel` of zysoft/zysoft/timer/timing_wheel.h. Shared entries stand in a store,
--   at addresses that are the weak handles; `Inv` of Timer/Wheel/Valid is the invariant that its assertions
--   rest on, and `Timely` of Timer/Wheel/Turn adds that slots are in order and that nothing is overdue.
--   `turn` is what `turn_wheel` of zysoft/net/timer_queue.h does before it calls the callbacks.
-- * Timer/Basic and Timer/Clock are `basic_timer` and `clock_timer` of zysoft/zysoft/timer/timer.h.
-- * Memory/FlatBuffer is zysoft/zysoft/memory/flat_buffer.h, a vector with two positions, all arithmetic
--   on them modulo 2 ^ 64.
-- * Memory/AutoBuffer is zysoft/zysoft/memory/auto_buffer.h, with its blocks and the log of what it gave
--   back. The allocator is a parameter that may refuse any request.
-- * Memory/Allocators is `allocate` of zysoft/zysoft/memory/allocator_base.h.
-- * Text/Split is zysoft/zysoft/string/split_functions.h, Text/CmdArgs zysoft/zysoft/utility/cmdargs.h, and
--   Text/Strings, Text/Comments and Text/LocalTime the helpers of zysoft/zysoft/utility/ for strings, for
--   comments and for printed times, of which `localtime_r` and `mktime` are parameters. Text/Files is its
--   `cat_file`, over files as a parameter, Text/Random zysoft/zysoft/random.h, over a distribution, and
--   Text/Case zysoft/zysoft/string/case_functions.h, over `toupper` and `tolower`. A text is the list of its
--   characters.
-- * Time is the conversions of zysoft/zysoft/time/time.h, Time/Unix the clocks that read them, and Time/Windows its
--   clock on Windows.
--
-- The server learns of a connection's end by its cleanup. Net/Server/Runs takes for granted that it comes
-- once; Net/Connection/Life shows it, and Net/System puts the two together. The connection sets and drops
-- timers, which the queue keeps in a wheel, and its messages are buffers. It sees a timer as set or not,
-- and a buffer as its readable bytes, which is what the theorems about the wheel and the buffer allow.
--
-- Numbers are natural numbers, and `std::size_t` and `std::uint64_t` wrap at 2 ^ 64. `str_split`,
-- `remove_last_char` and `filter_comment` are loops on fuel, the length of the text (one more for the
-- last), which is enough as every round but the last takes a character. A failed assertion is a flag
-- (`fault`) of the connection, which goes on as under NDEBUG, and `none` of the wheel's `cancel` and
-- `reset`; the other assertions of the wheel compare sizes and are the field `sizes` of its invariant.
--
-- Not modelled: what the libraries do (asio and its sockets, threads, the C library); in Net/System and the runs of
-- Net/Server an accept that fails, behind which the code takes the socket of a null connection; a connection destroyed
-- before it is cleaned up, as when the server itself is; the reverse iterators and `swap` of `auto_buffer` and `deallocate` of the allocators, which do not compile once they are used,
-- accessors and type names; and the tests.
pub mod Prelude
pub mod Net
pub mod Text
pub mod Memory
pub mod Timer
pub mod Time
