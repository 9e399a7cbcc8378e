-- ===== src/Notifications.antt =====
-- The notification system (app/apis/notifications): events, deliveries, the outbox, the worker and
-- its sweeper, subscriptions and the inbox.
pub mod Types
pub mod Headers
pub mod Errors
pub mod Delivery
pub mod Outbox
pub mod Result
pub mod Inbox
pub mod Subscription
pub mod Ingest
pub mod Worker
