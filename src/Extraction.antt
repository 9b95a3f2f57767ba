-- ===== src/Extraction.antt =====
-- Decks and the claims in them: backend/app/services/parse/deck.py,
-- backend/app/services/extraction.py and `_parse_and_extract` of backend/app/services/pipeline.py.
pub mod Deck
pub mod Claims
pub mod Provenance
pub mod Ingest
pub mod Reparse
