-- ===== src/Pages/Upload.antt =====
-- The upload page of web/static/app.js: the rows of its queue (Rows), what one file's upload does
-- from its turn in the queue to the server's answer (Runs), what is sent of a file (Forms), the
-- link that the files of a visit share (Links) and the queue of all uploads (Queue).
pub mod Rows
pub mod Runs
pub mod Options
pub mod Links
pub mod Forms
pub mod Queue
