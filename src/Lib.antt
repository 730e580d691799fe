-- ===== src/Lib.antt =====
-- Pyxis (k-quickshare), the browser side: end-to-end encryption, and what a link's holder can rely on.
--
-- The browser seals every file before it is uploaded. A random file key seals the file's chunks, each
-- with a nonce that is its index and with the file's manifest as additional data, behind a header that
-- carries the manifest (web/static/e2e.js). The file key is wrapped under a key derived from the
-- link's secret, the name is sealed for the file's id and the list of members for the batch's id. A
-- drop's owner publishes a KEM key; a sender derives a submission's keys from a shared secret.
--
-- The files:
--   Base: lists and numbers, bytes, bit operations, and `Result`, whose `err` is a thrown error.
--   Json: `JSON.stringify` of objects, texts, lists and whole numbers, and `JSON.parse`.
--   E2e: the constants of web/static/e2e.js. Its children: Platform (what the browser provides, as
--   records of functions and laws), Nonce (chunkNonce), Header (magicFor, writeHeader, readHeader),
--   Slice (bytesEqual, readSlice), Manifest (chunkCount, buildManifest, parseManifest), Base64
--   (b64uEncode, b64uDecode), Padding (padNameBody, unpadNameBody), Chunks (encryptFile,
--   decryptChunks, decryptFile, decryptV2, decryptLegacy, openFile), Blobs (the wrap, seal and open
--   functions) and Keys (labels, dropLabels and the derive functions).
--   Zip: of web/static/zip.js, Crc (crcTable, crcUpdate, crcOfBlob), Names (uniqueNames), Stamp
--   (dosDateTime) and Archive (build).
--   Pages: of web/static/app.js, Roster (verifyRoster) and Upload, the upload page: Rows (what a row of
--   the queue shows), Runs (uploadOne from its turn to the server's answer), Forms (what it sends),
--   Options (snapshotOptions, the request and the keys of a new link), Links (batchState, ensureBatch,
--   recordMember, the new-link button) and Queue (handleFiles, enqueue, the cancel and Retry buttons).
--   Of the same page, Steps (the two steps of the upload form, Single-Use and its reset) and Names
--   (readNameStore, rememberName, forgetNames). Media is sniffIso. Drops has Create (the form of a new
--   drop, withSealedKey, unsealKey), Send (ensureSubmission, sendOne, enqueueFiles) and Inbox
--   (loadInbox, the keys and the note of each delivery).
--   Of the pages that a link opens, Listing is openNames, Kinds iconKindFor and previewKindFor, Fetches
--   decryptMember with its cache, and Share getPlain of a single file.
--   Tests: concrete functions with the laws of Platform, and runs.
--
-- A `Uint8Array` is the list of its bytes, a text the list of its UTF-16 code units. An async function
-- returns a `Result`. A `File` is its size and, for each chunk and each pass of readSlice, what its
-- two ways of reading yield, so every order of failures is a value. The random nonces and the KEM's
-- coins are arguments. Loops run over the chunks that remain, and readSlice over the four passes that
-- remain, so these need no fuel. The loop of crcOfBlob runs on fuel, two more than the whole slices of
-- the blob, the search for a free name on one more than the names seen, the JSON reader on the length
-- of its text, and isoWalk on its own budget of 4,000; the theorems show that it is enough.
--
-- The upload page is cut at its awaits, timers and requests: each piece is a function of the state,
-- and an event runs one of them, so a list of events is an interleaving. What an await yields, in what
-- order and when, is the events' to say. Texts that `t` translates are named for their keys.
--
-- AES-GCM, HKDF, PBKDF2, SHA-256, the X-Wing KEM of web/static/mlkem.js and the text coders are
-- parameters. Their laws are what is documented of them: decryption accepts what encryption yields
-- under the same key, nonce and additional data and nothing else, a ciphertext is 16 bytes longer,
-- derived keys have 32 bytes, decapsulation returns the encapsulated secret, a well-formed text
-- without a byte order mark is decoded from its encoding. Nothing is said of secrecy or of forging.
--
-- The fetches of a link's page are cut in the same way, into calls, unwrapped keys and answers; their
-- cache is a function of the id. The pages of a drop are cut at whole files: what the server answers
-- to a file is part of its turn.
--
-- Not modelled: of web/static/app.js the zip download, the gallery and the unlocking of a link's page,
-- the history and its search, the sizes that are shown, and what only shows or leaves a page; progress reports of e2e.js and zip.js and the transfer rate; the vendored
-- web/static/mlkem.js and web/static/qrlib.js; the server, which is written in Go.
pub mod Base
pub mod Json
pub mod E2e
pub mod Zip
pub mod Pages
mod Tests
