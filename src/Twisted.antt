-- ===== src/Twisted.antt =====
-- hpfeeds/twisted: the protocol and the service of the Twisted client.
pub mod Service
pub mod Same
pub mod Tests
