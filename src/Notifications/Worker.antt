-- ===== src/Notifications/Worker.antt =====
-- The notification worker: app/apis/notifications/worker/consumer.py and sweeper.py.
pub mod Prepare
pub mod Message
pub mod Disposition
pub mod Sweep
pub mod Retries
pub mod Trail
