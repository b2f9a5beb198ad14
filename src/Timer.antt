-- ===== src/Timer.antt =====
-- code/timer: the heap of timeouts, and the stopwatch.
pub mod Heap
