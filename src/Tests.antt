-- ===== src/Tests.antt =====
-- The theorems at concrete rows, messages and items.
mod Deliveries
mod Rounds
mod Outboxes
mod Ingests
mod Messages
mod Alerts
mod Members
mod Pages
mod Accounts
mod Stock
mod Inboxes
mod Catalog
pub mod Rows
pub mod Ids
