-- ===== src/EndToEnd.antt =====
-- hpfeeds/asyncio/client.py, hpfeeds/broker and hpfeeds/blocking together: what two clients and the
-- broker between them make of each other's bytes.
pub mod Published
pub mod Handshake
pub mod Tests
