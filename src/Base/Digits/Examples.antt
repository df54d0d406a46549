-- ===== src/Base/Digits/Examples.antt =====
-- The theorem on weights at a concrete text.
use tkd_chb.Base.{◌≡◌, ◌↔◌, ◌≤◌, true}
use tkd_chb.Base.Digits.{sanitize_weight, is_weight, weight_chars, some_digit, count_dots}
use tkd_chb.Base.Digits.Laws.{sanitize_weight-is_weight_iff}

sanitize_weight-is_weight_iff_example :
    (is_weight (sanitize_weight "1.2.3.4") ≡ true)
    ↔ ((some_digit (weight_chars "1.2.3.4") ≡ true) × (count_dots (weight_chars "1.2.3.4") ≤ 2))
sanitize_weight-is_weight_iff_example = sanitize_weight-is_weight_iff "1.2.3.4"
