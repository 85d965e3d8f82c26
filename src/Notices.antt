-- ===== src/Notices.antt =====
-- Notifications: apps/api/app/services/notification_service.py. A delivery is a value: the row that it
-- writes to the log at once, or the job that goes to a worker thread, and whose sending writes its
-- row. Left out: the identifier and the moment of a row of the log.
pub mod Delivery
pub mod Messages
pub mod Mail
pub mod Pushes
pub mod Reporters
pub mod Staff
pub mod Examples
