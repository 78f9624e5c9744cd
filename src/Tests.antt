-- ===== src/Tests.antt =====
-- A concrete kernel that meets every contract, and the theorems at concrete inputs.
mod Limbs
mod Machine
mod Contracts
mod Fixtures
mod Signing
mod Cells
mod Numbers
mod Devices
mod Lives
mod Refusals
mod Views
mod Runs
