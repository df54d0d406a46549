-- ===== src/Base/Text/Examples.antt =====
-- The theorems on texts at concrete texts.
