-- ===== src/Tests.antt =====
-- Concrete inputs: a toy cipher and coders, and the theorems applied to them.
mod Instances
mod Files
mod Blobs
mod Containers
mod Zip
mod Pages
mod Uploads
mod Forms
mod Drops
mod Listing
