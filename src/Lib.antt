-- ===== src/Lib.antt =====
-- couv: libuv for Lua coroutines, a C library that Lua loads.
--
-- A Lua program calls C functions, which call libuv and either return, raise a Lua error or yield;
-- libuv later calls back, and the callback resumes the coroutine. What flows through are buffers,
-- which share counted blocks of memory.
--
-- Prelude: numbers, lists, bytes, C's integers and the lemmas that the parts share. Lua: a C
--   function as a state passer that returns, raises an error or faults, a fault being undefined
--   behaviour of C. The Lua C API, libuv and malloc are not part of this library: what they answer
--   is an argument, and what is relied on is a hypothesis that names it.
-- Buffer, for src/buffer.c and src/buf_alloc.c. Mem is the heap of counted blocks
--   (couv_buf_mem_alloc, _retain, _release), Access a couv_buf_t and the check of an index, Read
--   and Write the integers, Float the floats and doubles on a host of either byte order, Range
--   slice, fill, toString, copy, write and __gc, New and Concat what makes buffers. A pointer into
--   a block is an offset, so that a read or a write outside a block is a fault, and so is one of a
--   block that is freed. Codec has the formats of numbers, each with its reader and its writer.
--   Valid to Frame, and the modules below Range, Float, New and Concat, hold what the methods do.
--   Owners is a whole Lua program: the buffers that are alive, which are the userdata that the
--   collector has not taken, and a sequence of calls on them. A failed Buffer.new leaves its
--   half-made userdata there, and a call of __gc leaves the buffer there; both can lead to a fault,
--   and the theorems on programs are about those without either.
-- Queue is the interface of the queue that input waits in, and the circular links that fill it;
--   include/couv-private/ngx-queue.h is a copy of nginx's header.
-- Input, for read_cb and couv_prim_read of src/stream.c, udp_recv_cb and udp_prim_recv of
--   src/udp.c, and read2_cb and couv_prim_read2 of src/pipe.c, which have one body: an input is
--   allocated and queued, and the coroutine resumed if it waits. Resuming is a change of the
--   coroutine's status here; what it does next is the next event. An ENOMEM of such a callback is
--   raised outside every protected call, and what becomes of the program is left out.
-- SockAddr, for src/sockaddr.c: addresses, with uv_inet_pton and uv_ip4_name as
--   parameters. An address has neither flow nor scope, which src/sockaddr.c sets to 0.
-- Handle, for what constructors, listen, timer start and spawn of src/tcp.c, udp.c, pipe.c, tty.c,
--   timer.c, stream.c and process.c keep in Lua's registry, and close_cb of src/handle.c.
-- Fs, for src/fs.c: a request, what its answer pushes for Lua, and the life of a request that is
--   made in a coroutine. What libuv is asked is recorded. Calls has the calls one by one, and Parts
--   what reading and writing ask of a buffer.
-- Request, for what write, write2 and shutdown of src/stream.c, the connects of src/tcp.c and
--   src/pipe.c and send of src/udp.c allocate, and their callbacks free. The array of a write lies in
--   its request (req->data, holder->bufs), out of which the callback reads it.
-- Class, for couv_newmetatable and couvL_testudataclass of src/auxlib.c: the classes of userdata.
--   Open has those that luaopen_couv_native of src/couv.c makes, with the part of each luaopen_
--   function that makes a metatable; a class has its table at the number of its name.
-- Method, for couvL_checkudataclass and the methods that check the class of their handle and then
--   call libuv: those of src/handle.c and src/timer.c (Handles), of src/stream.c, src/tcp.c,
--   src/pipe.c and src/tty.c (Streams), and of src/udp.c (Datagrams). A call of libuv is a value
--   that is recorded; Program is any sequence of methods.
-- Process, for spawn of src/process.c: the arrays of strings and of containers that it makes of a
--   table, and in Start what it asks of libuv, what it frees, and what it registers.
-- Native, for sleep and getaddrinfo of src/couv.c. An address has a phase in libuv, and a run is a
--   list of events, in Play: calls of coroutines, timers that fire, handles that are closed, answers.
-- System, for the other functions of src/couv.c that return lists or may fail, and for the loop in
--   the registry, of src/loop.c.
-- Handle.Callbacks, for timer_cb, connection_cb and exit_cb, which call a Lua function that is
--   found in the registry.
-- Fs.Stat, for the accessors of a stat in src/fs.c, its text of a permission, and C's strtoul.
-- Udp, for bind and setMembership of src/udp.c and bind of src/tcp.c.
--
-- These meet in a few places. The registry of Handle is that of Native and Process; memory is that
-- of Request in all but buffers, which have a heap of their own; an address is that of SockAddr;
-- and the class test of Method and Process is that of Class, on the tables of Class.Open.
--
-- Bounds and fuel. An int is an integer, wrapped to 32 bits where the source narrows to it; size_t
-- has 64 bits, and sums of it wrap. Overflow of the int that counts the users of a
-- block is a fault; readInt32's negation of the least int wraps, as the repository's tests expect. Theorems about buffers ask for lengths that fit an int. The
-- walk along metatables takes fuel, and one more than there are metatables is enough; five is
-- enough for the classes of couv. An octal text has at most 11 digits, enough for 32 bits; other
-- loops go down a list or a number.
--
-- Not modelled: conversions of arguments, which Lua makes, and how long Lua keeps a string that C
-- points to; hrtime, memory, loadavg, rss, uptime,
-- run and updateTime of src/couv.c and src/loop.c, which are one call of libuv each; what only
-- Windows compiles; the tables of functions and constants; and the Lua part.
pub mod Prelude
pub mod Lua
pub mod Buffer
pub mod Queue
pub mod Input
pub mod SockAddr
pub mod Handle
pub mod Fs
pub mod Request
pub mod Class
pub mod Udp
pub mod Native
pub mod Method
pub mod Process
pub mod System
