-- ===== src/Legacy.antt =====
-- hpfeeds/client.py, class Client: a client that blocks, over what its sockets answer.
pub mod Connection
pub mod Run
pub mod Took
pub mod Told
pub mod Resubscribed
pub mod Stops
pub mod Dropped
pub mod Raises
pub mod Tests
