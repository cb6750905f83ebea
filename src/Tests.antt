-- ===== src/Tests.antt =====
-- Runs of the model at concrete inputs, and the theorems applied at inputs that meet their
-- conditions; a module for each group of components.
mod Data
mod Buffers
mod Frames
mod Times
mod Stats
mod Arrivals
mod Sealed
mod Setups
mod Values
mod Datagrams
mod Threads
mod Sending
mod Latencies
