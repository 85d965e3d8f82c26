-- ===== src/Cases.antt =====
-- The life of an incident case: apps/api/app/services/case_service.py.
pub mod Session
pub mod Lifecycle
pub mod Actions
pub mod EmicUpdate
pub mod Sound
pub mod Timeline
pub mod Keeps
pub mod History
pub mod Operations
pub mod Effects
pub mod Numbering
pub mod Numbers
pub mod Creation
pub mod Birth
pub mod Life
pub mod Queries
pub mod Listing
pub mod Examples
