-- ===== src/Client/ContentMapper.antt =====
-- src/core/corsa_client/src/api/content_mapper.rs: ranges, span map segments and the codes they
-- travel in, and the maps between virtual and original text.
pub mod Ranges
pub mod Codes
pub mod Features
pub mod Segments
pub mod Virtual
pub mod Original
pub mod Projections
pub mod RoundTrip
pub mod Images
pub mod Construction
pub mod Definition
pub mod Tests
