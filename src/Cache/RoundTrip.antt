-- ===== src/Cache/RoundTrip.antt =====
-- A `put` followed by a `get`.
