-- ===== src/Zip.antt =====
-- web/static/zip.js: one child for each part of the file that is modelled.
pub mod Archive
pub mod Crc
pub mod Names
pub mod Stamp
