-- ===== src/LinkGen.antt =====
-- internal/linkgen: the percent-encoder, the link builder and the export of the links.
pub mod Quote
pub mod Links
pub mod Export
mod Tests
