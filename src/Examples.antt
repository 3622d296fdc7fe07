-- ===== src/Examples.antt =====
-- Small machines, and the theorems at them.
mod Machine
mod Processes
mod Descriptors
mod Buffers
mod Calls
mod Logging
mod Services
mod Buffering
mod Filing
mod Naming
mod Paths
mod Numbers
mod Paging
mod Parsing
mod Typing
