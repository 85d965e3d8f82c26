-- ===== src/Situation.antt =====
-- The situation picture: apps/api/app/services/situation_service.py. Its counts (`Counting`), the trend of
-- the last hours (`Buckets`), the public summary (`Summary`) and the overviews of the console
-- (`Overviews`). The map of the same file is in Portal/Features.
pub mod Counting
pub mod Buckets
pub mod Summary
pub mod Overviews
pub mod Groups
pub mod Partition
pub mod Trend
pub mod Examples
