-- ===== src/Tenants.antt =====
-- The short names of institutions, frontend/src/utils/tenantAbbreviations.ts.
mod Entry
pub mod Table
pub mod Abbreviate
pub mod Order
pub mod Includes
mod Tests
