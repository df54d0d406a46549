-- ===== src/Base/Digits.antt =====
-- Digits of three scripts, marks of direction and weights, as the forms clean them: `toFa`,
-- `normalizeDigits`, `stripRtlMarks` and `sanitizeWeight` of CompetitionDetails.jsx and
-- CoachRegisterStudents.jsx, and the variants of LoginModal.jsx and ForgotPasswordModal.jsx.
pub mod Laws
mod Examples
use Prim.Native.Nat.{ℕ, ◌+◌, ◌-◌, ◌<◌}
use Prim.Native.Char.{Char, code}
use Prim.Native.String.{String, [], ◌∷◌}
use mathlib.Core.Bool.{Bool, true, false, not, ◌&&◌, ◌||◌}
use text.Mathlib.Text.{◌==◌}
use tkd_chb.Base.Tests.{leb, eqb, if◌then◌else◌}
use tkd_chb.Base.Text.{nth_char, map_chars, filter_chars, has_char, is_space, trim}

abbrev pub is_digit : Char → Bool
is_digit c = leb 48 (code c) && leb (code c) 57

-- "0123456789"["\u{6f0}\u{6f1}\u{6f2}\u{6f3}\u{6f4}\u{6f5}\u{6f6}\u{6f7}\u{6f8}\u{6f9}".indexOf(d)] for a Persian digit, then the same for an Arabic one
unfoldable pub ascii_digit : Char → Char
ascii_digit c =
    let n = code c in
    if leb 0x6f0 n && leb n 0x6f9
    then nth_char "0123456789" (n - 0x6f0)
    else if leb 0x660 n && leb n 0x669
    then nth_char "0123456789" (n - 0x660)
    else c

unfoldable pub normalize_digits : String → String
normalize_digits s = map_chars ascii_digit s

unfoldable pub persian_digit : Char → Char
persian_digit c = if is_digit c then nth_char "۰۱۲۳۴۵۶۷۸۹" (code c - 48) else c

unfoldable pub to_fa : String → String
to_fa s = map_chars persian_digit s

-- [\u200e\u200f\u200c\u202a-\u202e]
abbrev is_mark : Char → Bool
is_mark c =
    let n = code c in eqb n 0x200e || eqb n 0x200f || eqb n 0x200c || leb 0x202a n && leb n 0x202e

unfoldable pub strip_rtl_marks : String → String
strip_rtl_marks s = filter_chars (λ c. not (is_mark c)) s

-- LoginModal.jsx: trimmed, and without blanks and hyphens
unfoldable pub login_digits : String → String
login_digits s = filter_chars (λ c. not (is_space c || eqb (code c) 45)) (normalize_digits (trim s))

-- ForgotPasswordModal.jsx: trimmed
unfoldable pub trimmed_digits : String → String
trimmed_digits s = normalize_digits (trim s)

abbrev pub is_dot : Char → Bool
is_dot c = eqb (code c) 46

-- [\/\u{66b},\u{60c}]
unfoldable pub point_char : Char → Char
point_char c =
    let n = code c in
    if eqb n 47 || eqb n 0x66b || eqb n 44 || eqb n 0x60c then nth_char "." 0 else c

-- after the first dot: without the last one
unfoldable pub drop_last_dot : String → String
drop_last_dot [] = []
drop_last_dot (c ∷ s) =
    let rest = drop_last_dot s in
    if is_dot c && not (has_char s (nth_char "." 0)) then s else c ∷ rest

-- replace(/(\..*)\./g, "$1"): the match runs from the first dot to the last
unfoldable pub drop_dot : String → String
drop_dot [] = []
drop_dot (c ∷ s) = let rest = drop_dot s in if is_dot c then c ∷ drop_last_dot s else c ∷ rest

-- normalized, with dots for the separators, and only digits and dots
unfoldable pub weight_chars : String → String
weight_chars s =
    filter_chars (λ c. is_digit c || is_dot c) (map_chars point_char (normalize_digits s))

unfoldable pub sanitize_weight : String → String
sanitize_weight s = drop_dot (weight_chars s)

unfoldable pub count_dots : String → ℕ
count_dots [] = 0
count_dots (c ∷ s) = if is_dot c then 1 + count_dots s else count_dots s

unfoldable pub some_digit : String → Bool
some_digit [] = false
some_digit (c ∷ s) = is_digit c || some_digit s

-- w && !isNaN(Number(w)), for a text of digits and dots: a decimal has a digit and at most one dot
unfoldable pub is_weight : String → Bool
is_weight w = some_digit w && leb (count_dots w) 1
