-- ===== src/Tests.antt =====
-- The theorems at concrete inputs, by part.
mod Values
mod Sinks
mod Sockets
mod Responses
mod Connections
mod Workers
mod Requests
mod Certificates
mod Processes
mod Calls
mod Accounts
mod Messages
mod Heads
mod Exchanges
mod Serves
mod Handles
mod Apps
mod Challenges
