-- ===== src/Tests.antt =====
-- Runs of the model at concrete inputs, and the theorems applied to them.
mod Subscriptions
mod Timers
mod Managers
mod Requests
mod Segments
mod Variables
mod Documents
mod Definitions
mod Messages
mod Hosts
mod TaskManager
mod Scheduling
mod Processes
