-- ===== src/Sites.antt =====
-- SitesService, apps/api/src/sites/sites.service.ts: its rows, its operations, and whose rows a site
-- may refer to.
pub mod Rows
pub mod Service
mod Owned
mod Tests
