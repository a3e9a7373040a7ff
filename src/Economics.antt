-- ===== src/Economics.antt =====
-- dessin/economics: the economic system, storage leases and their top-ups.
pub mod EconomicSystem
pub mod StorageLease
pub mod StorageTopup
pub mod DynamicParameters
pub mod ComputeFeeSchedule
