-- ===== src/Agent.antt =====
-- src/prima_pool_client/agent.py: the worker agent. A coroutine that the event loop cannot
-- interrupt is one function; the background tasks are values, and their rounds functions.
pub mod State
pub mod Register
pub mod Cluster
pub mod Frames
pub mod Events
pub mod Keeps
pub mod Returns
pub mod Channel
pub mod Identity
pub mod Membership
pub mod Online
pub mod Persist
pub mod Relay
pub mod Monitor
pub mod Run
pub mod FirstStart
pub mod Restart
