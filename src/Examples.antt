-- ===== src/Examples.antt =====
-- Runs of the model on concrete data, and the theorems at them.
mod Data
mod Buckets
mod Chunks
mod Players
mod Connections
mod Streams
mod Clients
