-- ===== src/Register/Phone/Typed.antt =====
-- The inputs of the code, joined once each has its digit.
use Prim.Native.String.{◌++◌ as ◌<>◌}
use text.Mathlib.TextLemmas.{nil-append, cons-append}
use tkd_chb.Base.{◌≡◌, refl, ℕ, zero, suc, ◌+◌, String, true, List, [], ◌∷◌, every, length, arith}
use tkd_chb.Base.Text.{length_text, every_char, join}
use tkd_chb.Base.Text.Laws.{every_char-append}
use tkd_chb.Base.Digits.{is_digit}
use tkd_chb.Forgot.{is_code}
use tkd_chb.Register.Phone.{set_at, is_digit_or_empty, is_full}

pub length_text-append : (s t : String) → length_text (s <> t) ≡ length_text s + length_text t
unfolding length_text
length_text-append String.[] t = rw nil-append (omega arith)
length_text-append (String.◌∷◌ c s) t = rw cons-append (omega (arith, length_text-append s t))

join-length_text : (cs : List String) → is_full cs ≡ true → length_text (join "" cs) ≡ length cs
unfolding join length_text
join-length_text [] h = refl
join-length_text (c ∷ []) h = ground arith
join-length_text (c ∷ d ∷ cs) h =
    let here : length_text c ≡ 1 = ground arith in
    rw (length_text-append c ("" <> join "" (d ∷ cs))) (
      rw (length_text-append "" (join "" (d ∷ cs)))
        (omega (arith, here, join-length_text (d ∷ cs) (ground arith))))

join-digits :
    (cs : List String) → every is_digit_or_empty cs ≡ true → every_char is_digit (join "" cs) ≡ true
unfolding join every_char is_digit_or_empty
join-digits [] h = refl
join-digits (c ∷ []) h = ground arith
join-digits (c ∷ d ∷ cs) h =
    rw (every_char-append is_digit c ("" <> join "" (d ∷ cs)))
      (rw (every_char-append is_digit "" (join "" (d ∷ cs))) (ground (arith, join-digits (d ∷ cs))))

-- The inputs of the code: four, each empty or with one digit.
abbrev pub IsTyped : List String → Type 0
IsTyped cs = (length cs ≡ 4) × (every is_digit_or_empty cs ≡ true)

pub IsTyped-is_code :
    (cs : List String) → IsTyped cs → is_full cs ≡ true → is_code (join "" cs) ≡ true
unfolding is_code
IsTyped-is_code cs (four, digits) full =
    ground (arith, four, join-length_text cs full, join-digits cs digits)

pub set_at-length : (n : ℕ) (v : String) (cs : List String) → length (set_at n v cs) ≡ length cs
unfolding set_at
set_at-length n v [] = refl
set_at-length zero v (c ∷ cs) = refl
set_at-length (suc n) v (c ∷ cs) = omega (arith, set_at-length n v cs)

pub set_at-digits :
    (n : ℕ) (v : String) (cs : List String)
    → is_digit_or_empty v ≡ true
    → every is_digit_or_empty cs ≡ true
    → every is_digit_or_empty (set_at n v cs) ≡ true
unfolding set_at
set_at-digits n v [] h hs = refl
set_at-digits zero v (c ∷ cs) h hs = ground arith
set_at-digits (suc n) v (c ∷ cs) h hs = ground (arith, set_at-digits n v cs h)
