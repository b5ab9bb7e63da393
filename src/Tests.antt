-- ===== src/Tests.antt =====
-- Tests, and each theorem with hypotheses at a concrete input.
mod Arrays
mod Requests
mod Searching
mod Serving
mod Flow
mod Replaying
mod Providing
mod Reusing
mod Storing
mod Routing
mod Sessions
mod Batching
