-- ===== src/AdapterConfig.antt =====
-- The package `adapterconfig`: candidates by their offline evidence (compatibility.go) and the
-- selection of models by live evidence (usecase_selection.go).
pub mod Candidates
pub mod Evidence
pub mod Selection
pub mod Selected
pub mod Offline
