-- ===== src/Log.antt =====
-- code/log: the lines of the log, and the bounded queue to the thread that writes them.
pub mod Queue
pub mod Lines
