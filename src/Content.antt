-- ===== src/Content.antt =====
-- Editing by clients, apps/api/src/content: which edits are accepted, how they are written into the
-- parameters of a site, and what no edit can reach.
pub mod Path
mod Frame
pub mod Edits
pub mod Service
pub mod Save
pub mod Protected
pub mod Authorised
mod Tests
