-- ===== src/Examples.antt =====
-- Runs of the theorems at concrete inputs.
mod SampleJson
mod SampleGateway
mod Requests
mod Serving
mod Texts
mod Stores
mod AdminPages
mod Signals
mod Brokers
mod Sockets
mod Runs
mod Recordings
