-- ===== src/Tests.antt =====
-- Runs on concrete input, and each theorem at one.
mod Fixtures
mod Strings
mod Buffers
mod Requests
mod Bodies
mod Lists
mod Frames
mod Addresses
mod Streams
mod Pools
mod Messages
mod HttpClients
mod Uploads
mod Graphs
