-- ===== src/Broker.antt =====
-- The broker: hpfeeds/broker/server.py, hpfeeds/broker/connection.py and the base class of
-- connections, hpfeeds/asyncio/protocol.py.
pub mod State
pub mod Subscriptions
pub mod Lifecycle
pub mod Publish
pub mod Handlers
pub mod Loop
pub mod Rules
pub mod Steps
pub mod Books
pub mod Cleanup
pub mod Delivery
pub mod Forwards
pub mod Supervisor
pub mod Ends
pub mod Accepts
pub mod Permissions
pub mod Metrics
pub mod Exporter
pub mod Endpoints
pub mod Startup
pub mod Tests
