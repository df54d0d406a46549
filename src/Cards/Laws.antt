-- ===== src/Cards/Laws.antt =====
-- The address that names the cards and what is read from it.
use Prim.Native.Char.{Char}
use Prim.Native.String.{[], ◌∷◌, ◌++◌}
use text.Mathlib.TextLemmas.{nil-append, cons-append}
use text.Mathlib.TextEquality.{eq_iff}
use tkd_chb.Base.{
  ◌≡◌, ◌≢◌, refl, ap, ℕ, zero, suc, ◌/◌, ◌%◌, ◌<◌, String, List, [], ◌∷◌, map, Bool, true, false,
  not, ◌&&◌, ltb, if◌then◌else◌, arith, Bool-cases, inl, inr, All,
}
use tkd_chb.Base.Digits.{is_digit}
use tkd_chb.Base.Text.{
  every_char, length_text, trim, trim_start, trim_end, pieces, cons_first, non_empty, join,
  show_number, show_from, digit_text, nth_char,
}
use tkd_chb.Base.Text.Laws.{every_char-append, every_char-nth_char_within}
use tkd_chb.Cards.{is_comma, ids_of_query}

IsDigits : String → Type 0
IsDigits s = every_char is_digit s ≡ true

append-IsDigits : (s t : String) → IsDigits s → IsDigits t → IsDigits (s ++ t)
unfolding IsDigits
append-IsDigits s t h k = rw (every_char-append is_digit s t) (rw (h, k))

if-IsDigits : (b : Bool) (s t : String) → IsDigits s → IsDigits t → IsDigits (if b then s else t)
if-IsDigits true s t h k = h
if-IsDigits false s t h k = k

nth_char-is_digit : (n : ℕ) → n < 10 → is_digit (nth_char "0123456789" n) ≡ true
nth_char-is_digit n h =
    every_char-nth_char_within is_digit "0123456789" n (unfold every_char in refl)
      (unfold length_text in h)

digit_text-IsDigits : (n : ℕ) → n < 10 → IsDigits (digit_text n)
unfolding IsDigits every_char digit_text
digit_text-IsDigits n h = rw (nth_char-is_digit n h) refl

show_from-IsDigits : (f n : ℕ) → IsDigits (show_from f n)
unfolding show_from
show_from-IsDigits zero n = unfold every_char IsDigits in refl
show_from-IsDigits (suc f) n = elim (Bool-cases (ltb n 10)) [
  | inl small ↦ rw small (digit_text-IsDigits n (ground arith))
  | inr large ↦ rw large (
      append-IsDigits (show_from f (n / 10)) (digit_text (n % 10)) (show_from-IsDigits f (n / 10))
        (digit_text-IsDigits (n % 10) (omega arith)))
]

split_not : (b : Bool) {c : Bool} → (not b && c) ≡ true → (b ≡ false) × (c ≡ true)
split_not b h = ground arith

module _ (p : Char → Bool) where
  -- A stretch without a separator is one piece.
  pieces-alone : (w : String) → every_char (λ c. not (p c)) w ≡ true → pieces p w ≡ w ∷ []
  unfolding every_char pieces cons_first
  pieces-alone [] h = refl
  pieces-alone (c ∷ w) h = let (apart, rest) = split_not (p c) h in rw (pieces-alone w rest, apart)

  pieces-append :
      (w : String) (c : Char) (s : String)
      → every_char (λ c. not (p c)) w ≡ true
      → p c ≡ true
      → pieces p (w ++ c ∷ s) ≡ w ∷ pieces p s
  unfolding every_char pieces cons_first
  pieces-append [] c s h k = rw nil-append (ground arith)
  pieces-append (d ∷ w) c s h k =
      let (apart, rest) = split_not (p d) h in rw (cons-append, pieces-append w c s rest k, apart)

trim_start-digits : (s : String) → IsDigits s → trim_start s ≡ s
unfolding trim_start every_char IsDigits
trim_start-digits [] h = refl
trim_start-digits (c ∷ s) h = ground arith

trim_end-digits : (s : String) → IsDigits s → trim_end s ≡ s
unfolding trim_end every_char IsDigits
trim_end-digits [] h = refl
trim_end-digits (c ∷ s) h = ground (arith, trim_end-digits s)

-- A text that an address can name.
abbrev Named : String → Type 0
Named w = IsDigits w × (w ≢ "")

append_char-full : (s : String) (c : Char) → s ++ (c ∷ "") ≢ ""
append_char-full [] c = rw nil-append (λ e. cc)
append_char-full (d ∷ s) c = rw cons-append (λ e. cc)

if-full : (b : Bool) (s t : String) → s ≢ "" → t ≢ "" → (if b then s else t) ≢ ""
if-full true s t h k = h
if-full false s t h k = k

show_number-Named : (n : ℕ) → Named (show_number n)
unfolding show_number
show_number-Named n = (
  show_from-IsDigits (suc n) n,
  if-full (ltb n 10) (digit_text n) (show_from n (n / 10) ++ digit_text (n % 10))
      (unfold digit_text in λ e. cc)
      (unfold digit_text in
        append_char-full (show_from n (n / 10)) (nth_char "0123456789" (n % 10))),
)

trim-Named : (w : String) → Named w → trim w ≡ w
unfolding trim
trim-Named w (digits, full) = rw (trim_start-digits w digits, trim_end-digits w digits)

no_comma : (w : String) → IsDigits w → every_char (λ c. not (is_comma c)) w ≡ true
unfolding IsDigits every_char
no_comma [] h = refl
no_comma (c ∷ w) h = ground (arith, no_comma w)

join_comma :
    (w t : String) (r : List String)
    → join "," (w ∷ t ∷ r) ≡ w ++ (nth_char "," 0 ∷ join "," (t ∷ r))
unfolding join
join_comma w t r = rw (cons-append, nil-append) refl

trim_first :
    (w : String) (ws : List String)
    → Named w
    → non_empty (map trim (w ∷ ws)) ≡ w ∷ non_empty (map trim ws)
trim_first w ws (digits, full) = rw (trim-Named w (digits, full)) (ground (arith, eq_iff w ""))

ids_of_query-join : (ws : List String) → All Named ws → ids_of_query (join "," ws) ≡ ws
unfolding ids_of_query
ids_of_query-join [] h = unfold pieces trim trim_start trim_end join in refl
ids_of_query-join (w ∷ []) (named, rest) =
    unfold join in rw (pieces-alone is_comma w (no_comma w named.0), trim_first w [] named)
ids_of_query-join (w ∷ t ∷ r) (named, rest) =
    rw
      (
        join_comma w t r,
        pieces-append is_comma w (nth_char "," 0) (join "," (t ∷ r)) (no_comma w named.0) refl,
        trim_first w (pieces is_comma (join "," (t ∷ r))) named,
      )
      (ap (λ us. w ∷ us) (ids_of_query-join (t ∷ r) rest))

show_numbers-Named : (ns : List ℕ) → All Named (map show_number ns)
show_numbers-Named [] = tt
show_numbers-Named (n ∷ ns) = (show_number-Named n, show_numbers-Named ns)

-- The page of the cards reads back the ids that the registration writes into its address: as many,
-- and in their order.
pub ids_of_query-written :
    (ns : List ℕ) → ids_of_query (join "," (map show_number ns)) ≡ map show_number ns
ids_of_query-written ns = ids_of_query-join (map show_number ns) (show_numbers-Named ns)
