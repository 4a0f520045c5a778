-- ===== src/Tests.antt =====
-- Concrete runs of the program's parts: each shows that what a theorem assumes can hold.
mod Scheduling
mod Detection
mod Runs
mod Heartbeats
mod Sockets
mod Writing
mod Apis
mod Agents
mod Browser
mod Alerts
mod Pages
mod Access
