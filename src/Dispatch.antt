-- ===== src/Dispatch.antt =====
-- src/dispatch.rs: the reactive router and its handlers.
pub mod World
pub mod Spin
pub mod Design
pub mod Subscribe
pub mod Command
pub mod Router
pub mod Frame
pub mod Effect
pub mod Reads
pub mod Requests
pub mod Safety
pub mod Subscription
mod Tests
