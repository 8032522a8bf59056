-- ===== src/Pipeline.antt =====
-- internal/pipeline: the description of the stages (spec.go) and its reading (parse.go).
--
-- The stages themselves are libraries. A text is the list of its bytes.
pub mod Int
pub mod Spec
pub mod RoundTrip
