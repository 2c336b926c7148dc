-- ===== src/Discovery.antt =====
-- Product search, apps/api/src/discovery: the cache in front of the paid API, the monthly cap for
-- visitors, and what the home pages of the sites show.
pub mod Product
pub mod Search
pub mod Cap
pub mod Featured
pub mod Distinct
pub mod Again
pub mod Visitors
mod Tests
