-- ===== src/Blocking.antt =====
-- hpfeeds/blocking: the reactor that a thread runs, the queue through which other threads write, the
-- protocol that the reactor calls, and the session that owns all of them.
pub mod Reactor
pub mod Queue
pub mod Protocol
pub mod Session
pub mod Tests
