-- ===== src/Inventory.antt =====
-- The inventory: app/apis/inventory and the expiry job, app/jobs/inventory_expiry_job.py.
pub mod Stock
pub mod Alerts
pub mod Expiry
