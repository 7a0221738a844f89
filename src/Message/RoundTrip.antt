-- ===== src/Message/RoundTrip.antt =====
-- Round trips of the message classes.
pub mod Subscription
pub mod Presence
pub mod Management
pub mod Payload
pub mod Legacy
pub mod Text
pub mod Filename
