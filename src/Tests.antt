-- ===== src/Tests.antt =====
-- Runs of the model at concrete inputs, and the theorems at inputs that meet their hypotheses.
mod Rounds
mod Leaves
mod AddressIndex
mod Node
mod Search
mod Store
mod Resolve
mod Consensus
mod History
