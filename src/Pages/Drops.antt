-- ===== src/Pages/Drops.antt =====
-- Drops in web/static/app.js: the page that creates one (Create) the page that sends files to
-- one (Send) and the page of its owner (Inbox).
pub mod Create
pub mod Send
pub mod Inbox
