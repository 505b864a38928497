-- ===== src/Examples.antt =====
-- The theorems at work on concrete inputs.
mod Data
mod FixedPoint
mod Reached
mod Versions
mod Command
mod Nodes
mod Controller
mod Pools
mod Others
