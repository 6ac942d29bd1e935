-- ===== src/Watching.antt =====
-- hpfeeds/broker/utils/inotify.py: which paths a file depends on, and the set of watches.
pub mod Paths
pub mod Watches
pub mod Tests
