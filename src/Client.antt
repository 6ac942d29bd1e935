-- ===== src/Client.antt =====
-- hpfeeds/asyncio/client.py and the class ClientProtocol of hpfeeds/asyncio/protocol.py: a session
-- with the broker.
pub mod Session
pub mod Synced
pub mod Calls
pub mod Connecting
pub mod Tests
