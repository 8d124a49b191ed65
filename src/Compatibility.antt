-- ===== src/Compatibility.antt =====
-- The package `compatibility`: the evidence on a candidate's features, judged by the requirements
-- of a use case.
pub mod Types
pub mod Evaluate
pub mod Profiles
pub mod Status
pub mod Builtin
