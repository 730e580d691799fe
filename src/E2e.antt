-- ===== src/E2e.antt =====
-- web/static/e2e.js: the constants of the format; one child for each part of the file.
pub mod Nonce
pub mod Header
pub mod Padding
pub mod Base64
pub mod Platform
pub mod Manifest
pub mod Slice
pub mod Chunks
pub mod Keys
pub mod Blobs
use k_quickshare.Base.{ℕ}

-- CHUNK and TAG: the plaintext bytes of a chunk, and what sealing adds to it.
abbrev pub chunk_size : ℕ
chunk_size = 65536

abbrev pub tag_size : ℕ
tag_size = 16

-- WRAP_NONCE, ROSTER_NONCE and NAME_NONCE
abbrev pub seal_nonce : ℕ
seal_nonce = 12

-- VERSION: the container version that is written.
abbrev pub version : ℕ
version = 5

-- HEADER_FIXED
abbrev pub header_fixed : ℕ
header_fixed = 6

-- NAME_PAD
abbrev pub name_pad : ℕ
name_pad = 512
