-- ===== src/Homes.antt =====
-- Homes and their members: app/apis/homes and app/apis/homeuser.
pub mod Members
pub mod Settings
pub mod Listing
