-- ===== src/Examples.antt =====
-- Runs of the theorems on concrete inputs.
mod Heaps
mod Stores
mod Traces
mod Experiments
mod Matches
mod Modules
mod Services
mod Faults
mod Servers
mod Lives
