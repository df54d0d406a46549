-- ===== src/Base/Text/Laws.antt =====
-- Laws of the text operations.
use Prim.Native.Char.{Char, code, nul}
use Prim.Native.String.{String, [], ◌∷◌, ◌++◌}
use text.Mathlib.TextLemmas.{nil-append, cons-append}
use mathlib.Core.Logic.{◌≢◌}
use mathlib.Core.Path.{◌≡◌, refl, ap}
use mathlib.Core.Logic.{inl, inr}
use mathlib.Core.Bool.{Bool, true, false, not, ◌&&◌}
use native.Mathlib.Omega.{arith}
use text.Mathlib.Text.{◌==◌}
use text.Mathlib.TextEquality.{eq_iff}
use Prim.Native.Nat.{ℕ, zero, suc, ◌-◌, ◌/◌, ◌%◌, ◌<◌}
use tkd_chb.Base.Tests.{leb, eqb, if◌then◌else◌, Bool-cases}
use tkd_chb.Base.Text.{
  nth_char, every_char, length_text, to_lower_case, lower_char, trim, encode_uri_component,
  encode_char, escape, hex, unreserved, show_number,
}

tests :
    (trim "  a b  " ≡ "a b")
    × (to_lower_case "CoaCH" ≡ "coach")
    × (show_number 1204 ≡ "1204")
    × (encode_uri_component "a/\u{628}" ≡ "a%2F%D8%A8")
unfolding trim to_lower_case encode_uri_component show_number
tests = (refl, refl, refl, refl)

module _ (p : Char → Bool) where
  -- What holds of every character of a table, and of the default, holds of what is read from it.
  every_char-nth_char :
      (s : String) (n : ℕ) → every_char p s ≡ true → p nul ≡ true → p (nth_char s n) ≡ true
  unfolding every_char
  every_char-nth_char [] n h d = d
  every_char-nth_char (c ∷ s) zero h d = ground arith
  every_char-nth_char (c ∷ s) (suc n) h d = every_char-nth_char s n (ground arith) d

  pub every_char-nth_char_within :
      (s : String) (n : ℕ) → every_char p s ≡ true → n < length_text s → p (nth_char s n) ≡ true
  unfolding every_char length_text
  every_char-nth_char_within [] n h k = absurd (omega arith)
  every_char-nth_char_within (c ∷ s) zero h k = ground arith
  every_char-nth_char_within (c ∷ s) (suc n) h k =
      every_char-nth_char_within s n (ground arith) (omega arith)

  pub every_char-append :
      (s t : String) → every_char p (s ++ t) ≡ (every_char p s && every_char p t)
  unfolding every_char
  every_char-append [] t = rw nil-append refl
  every_char-append (c ∷ s) t = rw cons-append (ground (arith, every_char-append s t))

-- No capital Latin letter.
is_low : Char → Bool
is_low c = not (leb 65 (code c) && leb (code c) 90)

lower_char-is_low : (c : Char) → is_low (lower_char c) ≡ true
unfolding lower_char is_low
lower_char-is_low c = elim (Bool-cases (leb 65 (code c) && leb (code c) 90)) [
  | inl capital ↦ rw capital (
      every_char-nth_char is_low "abcdefghijklmnopqrstuvwxyz" (code c - 65)
        (unfold every_char in refl) refl)
  | inr low ↦ rw low (rw low refl)
]

lower_char_of_low : (c : Char) → is_low c ≡ true → lower_char c ≡ c
unfolding lower_char is_low
lower_char_of_low c h = ground arith

-- Lowering a text twice is lowering it once.
pub to_lower_case_idem : (s : String) → to_lower_case (to_lower_case s) ≡ to_lower_case s
unfolding to_lower_case
to_lower_case_idem [] = refl
to_lower_case_idem (c ∷ s) =
    rw (lower_char_of_low (lower_char c) (lower_char-is_low c))
      (ap (λ t. lower_char c ∷ t) (to_lower_case_idem s))

-- A character that does not end, split or query a URL path.
abbrev pub in_segment : Char → Bool
in_segment c = not (eqb (code c) 47) && not (eqb (code c) 63) && not (eqb (code c) 35)

hex_char-in_segment : (n : ℕ) → in_segment (nth_char "0123456789ABCDEF" n) ≡ true
hex_char-in_segment n =
    every_char-nth_char in_segment "0123456789ABCDEF" n (unfold every_char in refl) refl

hex-in_segment : (b : ℕ) → every_char in_segment (hex b) ≡ true
unfolding hex every_char
hex-in_segment b = rw (hex_char-in_segment (b / 16)) (rw (hex_char-in_segment (b % 16)) refl)

append-in_segment :
    (s t : String)
    → every_char in_segment s ≡ true
    → every_char in_segment t ≡ true
    → every_char in_segment (s ++ t) ≡ true
append-in_segment s t h k = rw (every_char-append in_segment s t) (rw (h, k))

if-in_segment :
    (b : Bool) (s t : String)
    → every_char in_segment s ≡ true
    → every_char in_segment t ≡ true
    → every_char in_segment (if b then s else t) ≡ true
if-in_segment true s t h k = h
if-in_segment false s t h k = k

escape-in_segment : (n : ℕ) → every_char in_segment (escape n) ≡ true
unfolding escape
escape-in_segment n = search (hex-in_segment, append-in_segment, if-in_segment) depth 9

encode_char-in_segment : (c : Char) → every_char in_segment (encode_char c) ≡ true
unfolding encode_char
encode_char-in_segment c = elim (Bool-cases (unreserved c)) [
  | inl plain ↦ rw plain (unfold unreserved every_char in ground arith)
  | inr other ↦ rw other (escape-in_segment (code c))
]

-- Whatever the text, its encoding holds no slash, question mark or number sign.
pub encode_uri_component-in_segment :
    (s : String) → every_char in_segment (encode_uri_component s) ≡ true
unfolding encode_uri_component
encode_uri_component-in_segment [] = unfold every_char in refl
encode_uri_component-in_segment (c ∷ s) =
    rw (every_char-append in_segment (encode_char c) (encode_uri_component s))
      (rw (encode_char-in_segment c) (encode_uri_component-in_segment s))

-- A text that is one literal is no other.
pub eq_other : (s t u : String) → (t == u) ≡ false → (s == t) ≡ true → (s == u) ≡ false
eq_other s t u ne e = rw ((eq_iff s t).0 e) ne

-- x || y is a text where y is one.
pub or_text_full : (x y : String) → y ≢ "" → (if x == "" then y else x) ≢ ""
or_text_full x y full = ground (arith, eq_iff x "")
