-- ===== src/Pages.antt =====
-- web/static/app.js: one child for each part of the pages that is modelled.
pub mod Roster
pub mod Upload
pub mod Steps
pub mod Names
pub mod Drops
pub mod Media
pub mod Fetches
pub mod Share
pub mod Listing
pub mod Kinds
