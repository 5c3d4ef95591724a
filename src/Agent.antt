-- ===== src/Agent.antt =====
-- internal/agent: the program that measures and reports.
pub mod Collector
pub mod Sender
pub mod Pool
pub mod Client
pub mod Reporter
pub mod Providers
pub mod App
pub mod Lifecycle
