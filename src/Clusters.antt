-- ===== src/Clusters.antt =====
-- Deterministic clustering of reports: apps/api/app/services/cluster_service.py.
pub mod Policy
pub mod Matching
pub mod Nearest
pub mod Counting
pub mod Process
pub mod Stored
pub mod Threshold
pub mod Examples
