-- ===== src/Base/Digits/Laws.antt =====
-- What `sanitizeWeight` leaves of a text.
use Prim.Native.Char.{Char}
use Prim.Native.String.{String, [], ◌∷◌}
use tkd_chb.Base.{◌≡◌, ◌↔◌, refl, ◌-◌, ◌≤◌, Bool, true, not, ◌||◌, leb, eqb, if◌then◌else◌, arith}
use tkd_chb.Base.Text.{has_char, nth_char}
use tkd_chb.Base.Digits.{
  is_digit, is_dot, drop_last_dot, drop_dot, weight_chars, sanitize_weight, count_dots, some_digit,
  is_weight,
}

abbrev pub weight_char : Char → Bool
weight_char c = is_digit c || is_dot c

has_dot : (s : String) → has_char s (nth_char "." 0) ≡ not (eqb (count_dots s) 0)
unfolding count_dots
has_dot [] = refl
has_dot (c ∷ s) = ground (arith, has_dot s)

drop_last_dot-dots : (s : String) → count_dots (drop_last_dot s) ≡ count_dots s - 1
unfolding count_dots drop_last_dot
drop_last_dot-dots [] = refl
drop_last_dot-dots (c ∷ s) = ground (arith, drop_last_dot-dots s, has_dot s)

drop_dot-dots :
    (s : String)
    → count_dots (drop_dot s) ≡ (if leb (count_dots s) 1 then count_dots s else count_dots s - 1)
unfolding count_dots drop_dot
drop_dot-dots [] = refl
drop_dot-dots (c ∷ s) = ground (arith, drop_last_dot-dots s, drop_dot-dots s)

drop_last_dot-digit : (s : String) → some_digit (drop_last_dot s) ≡ some_digit s
unfolding some_digit drop_last_dot
drop_last_dot-digit [] = refl
drop_last_dot-digit (c ∷ s) = ground (arith, drop_last_dot-digit s)

drop_dot-digit : (s : String) → some_digit (drop_dot s) ≡ some_digit s
unfolding some_digit drop_dot
drop_dot-digit [] = refl
drop_dot-digit (c ∷ s) = ground (arith, drop_last_dot-digit s, drop_dot-digit s)

-- The cleaned text of a weight is a number exactly when the digits and separators of what was
-- typed hold a digit and at most two separators.
pub sanitize_weight-is_weight_iff :
    (s : String)
    → (is_weight (sanitize_weight s) ≡ true)
      ↔ ((some_digit (weight_chars s) ≡ true) × (count_dots (weight_chars s) ≤ 2))
unfolding is_weight sanitize_weight
sanitize_weight-is_weight_iff s =
    ground (arith, drop_dot-dots (weight_chars s), drop_dot-digit (weight_chars s))
