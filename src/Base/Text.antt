-- ===== src/Base/Text.antt =====
-- The operations of JavaScript's `String` that the program calls. A text is a list of code points,
-- so that every operation is a recursion; a code point outside the basic plane counts as one.
-- Upper and lower case are told apart for the Latin letters only: the other alphabets that the
-- program meets, Persian and Arabic, have no case.
pub mod Laws
mod Examples
use Prim.Native.Nat.{ℕ, zero, suc, ◌+◌, ◌-◌, ◌*◌, ◌/◌, ◌%◌}
use Prim.Native.Char.{Char, code, nul}
use Prim.Native.String.{String, [], ◌∷◌, ◌++◌}
use mathlib.Core.Bool.{Bool, true, false, not, ◌&&◌, ◌||◌}
use mathlib.Core.List.{List, [], ◌∷◌}
use text.Mathlib.Text.{starts_with, ◌==◌}
use tkd_chb.Base.Tests.{ltb, leb, eqb, if◌then◌else◌}

-- s[i]
abbrev pub nth_char : String → ℕ → Char
nth_char [] i = nul
nth_char (c ∷ s) zero = c
nth_char (c ∷ s) (suc i) = nth_char s i

-- s.indexOf(c), where it is known to occur
abbrev pub index_of : String → Char → ℕ
index_of [] c = 0
index_of (d ∷ s) c = if eqb (code d) (code c) then 0 else suc (index_of s c)

abbrev pub has_char : String → Char → Bool
has_char [] c = false
has_char (d ∷ s) c = eqb (code d) (code c) || has_char s c

unfoldable pub map_chars : (Char → Char) → String → String
map_chars f [] = []
map_chars f (c ∷ s) = f c ∷ map_chars f s

unfoldable pub filter_chars : (Char → Bool) → String → String
filter_chars p [] = []
filter_chars p (c ∷ s) = let rest = filter_chars p s in if p c then c ∷ rest else rest

unfoldable pub every_char : (Char → Bool) → String → Bool
every_char p [] = true
every_char p (c ∷ s) = p c && every_char p s

unfoldable pub length_text : String → ℕ
length_text [] = 0
length_text (c ∷ s) = suc (length_text s)

lower_char : Char → Char
lower_char c =
    if leb 65 (code c) && leb (code c) 90
    then nth_char "abcdefghijklmnopqrstuvwxyz" (code c - 65)
    else c

unfoldable pub to_lower_case : String → String
unfolding map_chars lower_char
to_lower_case s = map_chars lower_char s

-- What `\s` and `trim` take for white space.
abbrev pub is_space : Char → Bool
is_space c =
    let n = code c in
    leb 9 n && leb n 13
    || eqb n 32
    || eqb n 160
    || eqb n 0x1680
    || leb 0x2000 n && leb n 0x200a
    || eqb n 0x2028
    || eqb n 0x2029
    || eqb n 0x202f
    || eqb n 0x205f
    || eqb n 0x3000
    || eqb n 0xfeff

unfoldable pub trim_start : String → String
trim_start [] = []
trim_start (c ∷ s) = let rest = trim_start s in if is_space c then rest else c ∷ s

unfoldable pub trim_end : String → String
trim_end [] = []
trim_end (c ∷ s) = let rest = trim_end s in if is_space c && rest == "" then "" else c ∷ rest

unfoldable pub trim : String → String
unfolding trim_start trim_end
trim s = trim_end (trim_start s)

unfoldable pub includes : String → String → Bool
includes [] t = starts_with "" t
includes (c ∷ s) t = starts_with (c ∷ s) t || includes s t

-- s.slice(0, n)
unfoldable pub slice_to : ℕ → String → String
slice_to zero s = []
slice_to (suc n) [] = []
slice_to (suc n) (c ∷ s) = c ∷ slice_to n s

unfoldable pub join : String → List String → String
join sep [] = ""
join sep (s ∷ []) = s
join sep (s ∷ t ∷ r) = s ++ sep ++ join sep (t ∷ r)

unfoldable pub cons_first : Char → List String → List String
cons_first c [] = (c ∷ "") ∷ []
cons_first c (p ∷ ps) = (c ∷ p) ∷ ps

unfoldable pub pieces : (Char → Bool) → String → List String
pieces p [] = "" ∷ []
pieces p (c ∷ s) = let rest = pieces p s in if p c then "" ∷ rest else cons_first c rest

abbrev pub non_empty : List String → List String
non_empty [] = []
non_empty (s ∷ r) = let rest = non_empty r in if s == "" then rest else s ∷ rest

-- s.split(/[…]+/).filter(Boolean): the non-empty stretches between separators
unfoldable pub split_words : (Char → Bool) → String → List String
unfolding pieces cons_first
split_words p s = non_empty (pieces p s)

unfoldable pub digit_text : ℕ → String
digit_text n = nth_char "0123456789" n ∷ ""

unfoldable pub show_from : ℕ → ℕ → String
show_from zero n = ""
show_from (suc f) n =
    let rest = show_from f (n / 10) in
    if ltb n 10 then digit_text n else rest ++ digit_text (n % 10)

-- String(n); `n + 1` rounds are enough, since every round divides by ten
unfoldable pub show_number : ℕ → String
unfolding show_from digit_text
show_number n = show_from (suc n) n

hex : ℕ → String
hex b =
    nth_char "%" 0
    ∷ nth_char "0123456789ABCDEF" (b / 16)
    ∷ nth_char "0123456789ABCDEF" (b % 16)
    ∷ ""

-- the bytes of a code point in UTF-8, each as %XX
escape : ℕ → String
escape n =
    if ltb n 128
    then hex n
    else if ltb n 2048
    then hex (192 + n / 64) ++ hex (128 + n % 64)
    else if ltb n 65536
    then hex (224 + n / 4096) ++ hex (128 + n / 64 % 64) ++ hex (128 + n % 64)
    else hex (240 + n / 262144)
      ++ hex (128 + n / 4096 % 64)
      ++ hex (128 + n / 64 % 64)
      ++ hex (128 + n % 64)

-- A-Z a-z 0-9 - _ . ! ~ * ' ( )
unreserved : Char → Bool
unreserved c =
    let n = code c in
    leb 65 n && leb n 90 || leb 97 n && leb n 122 || leb 48 n && leb n 57 || has_char "-_.!~*'()" c

encode_char : Char → String
encode_char c = if unreserved c then c ∷ "" else escape (code c)

unfoldable pub encode_uri_component : String → String
unfolding encode_char escape hex unreserved
encode_uri_component [] = []
encode_uri_component (c ∷ s) = encode_char c ++ encode_uri_component s
