-- ===== src/Ngram/Phrases.antt =====
-- `UpdateBigramsFromHistory` of src/daemon/ngram.cc against the phrases of a history.
