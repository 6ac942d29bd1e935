-- ===== src/Auth.antt =====
-- hpfeeds/broker/auth: the classes Authenticator.
pub mod Json
pub mod Document
pub mod Multi
pub mod Variables
pub mod Memory
pub mod Rows
pub mod Mongo
pub mod Tests
