-- ===== src/Base/Js/Laws.antt =====
-- Laws of the values.
use tkd_chb.Base.{◌≡◌, refl, ap, List, [], ◌∷◌}
use tkd_chb.Base.Js.{Js, to_text, num, null, array, elements}
use tkd_chb.Base.Text.{show_number, join}

to_text_test : to_text (array (num 12 ∷ null ∷ [])) ≡ "12,"
unfolding to_text show_number join
to_text_test = refl

-- The elements of an array are those that it was made of.
pub elements-array : (vs : List Js) → elements (array vs) ≡ vs
elements-array [] = refl
elements-array (v ∷ vs) = ap (λ t. v ∷ t) (elements-array vs)
