-- ===== src/Manifest.antt =====
-- internal/manifest: the index entries (index.go), the part of the manifest that they are made from
-- (manifest.go), the JSON-lines format of the index, and the layout of the keys (keys.go).
--
-- JSON itself is a parameter, `Codec`: how one entry is written on one line and read back.
pub mod Entry
pub mod Jsonl
pub mod RoundTrip
pub mod Layout
pub mod Keys
