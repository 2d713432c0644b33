-- ===== src/Memorial.antt =====
-- The memorial of the public page: frontend/standalone/src/memorial.js, the gallery of past events and
-- the photographs that a reader adds to it.
pub mod Gallery
pub mod Photos
mod Tests
