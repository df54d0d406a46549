-- ===== src/Cards/Examples.antt =====
-- The ids of two cards in an address.
