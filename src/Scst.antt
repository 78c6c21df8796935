-- ===== src/Scst.antt =====
-- The configuration of SCST: its records, the checks of a LUN mapping and the operations that change
-- it.
pub mod Types
pub mod Conf
pub mod Luns
pub mod Names
pub mod Mutators
pub mod Devices
pub mod Distinct
pub mod Sound
pub mod Cluster
pub mod Suggestion
mod Kept
pub mod Referenced
pub mod File
mod Tests
