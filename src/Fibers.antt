-- ===== src/Fibers.antt =====
-- The fibers of src/fibers: the lock-free ring buffer of queue.c, run by one thread and by many, the
-- fibers of fiber.c, and the scheduler of scheduler.c over bounded queues.
pub mod Ringbuf
pub mod Threads
pub mod Idle
pub mod Queue
pub mod Fiber
pub mod Scheduler
