-- ===== src/Consensus.antt =====
-- dessin/consensus: verification in phases and by spot checks, the market for training, slashing, and
-- attestations with finalization.
pub mod TwoPhase
pub mod TrainingMarket
pub mod DynamicBlockTime
pub mod SlashingMechanism
pub mod SpotCheck
pub mod PogoConsensus
pub mod Equivocation
pub mod EnhancedPogo
pub mod Affordability
pub mod Leader
pub mod Bootstrap
