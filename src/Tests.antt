-- ===== src/Tests.antt =====
-- Runs of the model at concrete inputs, and the theorems at inputs that meet their hypotheses.
mod Fixture
mod Names
mod Connections
mod Requests
mod Answered
mod Dispatched
mod Offline
mod Served
mod Listed
mod Converted
mod Updated
mod Registry
mod Started
