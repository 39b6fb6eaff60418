-- ===== src/Sources/Stored.antt =====
-- What a created source stores.
