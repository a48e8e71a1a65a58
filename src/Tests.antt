-- ===== src/Tests.antt =====
-- Runs of the modelled code at concrete inputs, and the theorems at such inputs.
pub mod Addresses
pub mod Allocators
pub mod Spaces
pub mod Rings
pub mod Proposals
pub mod Names
pub mod MacCaches
pub mod Ipsets
pub mod Networks
pub mod Policies
pub mod Pods
pub mod Analysers
