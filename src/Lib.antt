-- ===== src/Lib.antt =====
-- cSpockBot, a Minecraft client in C: its protocol codecs, and the ring buffer and scheduler of
-- its fibers.
--
-- The program's parts. src/datautils.c encodes and decodes the types of the Minecraft protocol. For
-- each type there is `size_` (the length of an encoding to come), `walk_` (the length of an encoding in
-- a buffer of `max_len` bytes, or a negative number), `enc_`, `dec_` and `free_`. The generated
-- protocol code calls these, and src/net/sb_net.c calls that. Types build on each other: varints,
-- strings, NBT trees, slots, and what holds them. src/fibers/queue.c is a bounded lock-free ring
-- buffer, over which src/fibers/scheduler.c runs jobs and src/event/sb_event.c delivers events.
--
-- The model. Outcome is what a C call comes to: a value, a negative `int`, NULL, undefined behaviour,
-- or fuel that ran out. A `char *source` is the list of the bytes from it to the end of the memory; an
-- access behind it is `fault`. A decoder returns the value and the rest of the list, an encoder the
-- bytes that it writes. An `int32_t`, a `float` and the other words are their bit patterns, as natural
-- numbers below a power of two; the places where C wraps around or extends a sign say so with
-- `% 2 ^ 64`, `sub_size`, `add_size`, `sign_extend` and `to_int`. The members of a C union stand side
-- by side in a record.
--
-- Files and their code, all of src/datautils.c and include/datautils.h unless said otherwise:
-- - Prelude: lists, tests, words and bits; Outcome: results and their sequence.
-- - Numeric: `enc_byte` to `dec_lef64`. Varnum: varints and varlongs. Text: strings and buffers.
-- - Position: UUIDs and positions. Nbt: sizes and walks of trees, with the wire format in Nbt.Format,
--   and the optional trees in Nbt.Codec; a tree is the `nbt_node` of include/cNBT/nbt.h.
-- - Slot, Recipe, Particle, Metadata, Itemtags: the types of those names.
-- - Fibers.Ringbuf: src/fibers/queue.c with the structures of include/fibers/vgc.h, a call at a time.
-- - Fibers.Threads: `vgc_push` and `vgc_pop` of any number of threads. A step is one access to shared
--   memory (a load, a store, a weak exchange that may fail) of one thread; any thread may take the next
--   one. The accesses are sequentially consistent, which is more than the acquire and release of the
--   source. The state keeps a history beside the memory: the pushed items in the order in which their
--   exchanges succeeded, and what pops returned with the position each had won.
-- - Fibers.Queue: what the scheduler relies on in its queues, filled by the ring buffer in
--   Fibers.Queue.Ring. Fibers.Fiber: src/fibers/fiber.c. Fibers.Scheduler: src/fibers/scheduler.c over
--   such queues, with the fibers and counters as a store. A round of `vgc_scheduler_run` is
--   `next_fiber`, `begin`, the jump to the fiber, and `settle`. A spin lock that is taken is `stuck`
--   for a call that runs alone.
-- - Fibers.Idle: threads without work, the sleep in `vgc_scheduler_run` and the waking in `vgc_enqueue`. A
--   step is one access to shared memory or one call on the mutex or the condition of one thread, in one
--   order; a dequeue and a push are one step each. The source's accesses of `is_waiter` are relaxed, which
--   allows these runs and more.
-- - Event: the callbacks of an event in src/event/sb_event.c and include/sb_event.h, and in Event.Emit
--   its emission as jobs of the scheduler. Event.Table is the table of events, over a hash map that is
--   the parameter `Hashes`, with its start and `sbev_reg_event_cb` in Event.Table.Start. Event.Loop is
--   `sbev_start_event` and what it calls, beside others that call `sbev_kill`; whether a wait for the
--   counter of an emission ends is its parameter `ends`.
-- - Net: the read buffer and the packet header of src/net/sb_net.c and include/sb_net.h. Net.Read is
--   `sbnet_read_cb`: from what libuv has read to the events of packets. What it takes from zlib, from the
--   generated decoder, from `malloc`, and from the handlers of events is the parameter `Outside`; where
--   an event has no handler, the read of the counter that was not set is a `fault`. The plugin's lock is a
--   flag: to take it twice or to release it when it is free is a `fault`.
--   Net.Fill puts `sbnet_alloc_cb` before it, as libuv does, and reads one after the other. Net.Start is
--   `sbnet_init_net`, and Net.Connect `sbnet_connect_cb` up to its call of `uv_write`, with the generated
--   protocol as the parameter `Protocol`.
-- - Library: what the codecs take from outside, a parameter of the definitions that use it: sds strings,
--   `nbt_dump_binary` and `nbt_parse2` of cNBT, and `malloc`.
-- - Tests: concrete inputs.
--
-- Fuel and recursion. The encoders of varints recurse on `Acc`, the other loops on the list or on a
-- counter. `walk_nbt` recurses on fuel for the nesting, which is one more than the bytes ahead: each
-- level takes a byte. `walk_nbt_compound`, `walk_metadata` and `count_metatags` have fuel for their
-- rounds, one more than the bytes ahead, as each round takes a byte, and so has the loop of
-- `sbnet_read_cb` with the bytes that wait. The rounds of the ring buffer's loops are a list that says
-- for each whether the weak exchange succeeds.
--
-- Not modelled: the `free_` functions (there is no heap), the locks of the event core and of
-- `sbnet_init_net`, whose operations run one at a time here, several threads at once in the counters of
-- the scheduler, the stack switch (assembly), the callbacks that only call libuv, the generated protocol,
-- and the copies of sds, cNBT, uthash and log.c in the tree.
pub mod Event
pub mod Fibers
pub mod Itemtags
pub mod Library
pub mod Metadata
pub mod Nbt
pub mod Net
pub mod Numeric
pub mod Outcome
pub mod Particle
pub mod Position
pub mod Prelude
pub mod Recipe
pub mod Slot
pub mod Tests
pub mod Text
pub mod Varnum
