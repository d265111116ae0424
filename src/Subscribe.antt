-- ===== src/Subscribe.antt =====
-- src/services/subscribe: the TCP service that clients subscribe to.
pub mod Node
pub mod Registry
pub mod Groups
pub mod Server
