-- ===== src/Students/Ids/Laws.antt =====
-- The shapes of the reply that the server documents.
use tkd_chb.Base.{◌≡◌, refl, ℕ, List, [], ◌∷◌, map}
use tkd_chb.Base.Js.{Js, num, array, object}
use tkd_chb.Base.Js.Laws.{elements-array}
use tkd_chb.Students.Ids.{number_of, numbers, enrollment_value, extract_enrollment_ids}

numbers-num : (ns : List ℕ) → numbers (map num ns) ≡ ns
unfolding numbers number_of
numbers-num [] = refl
numbers-num (n ∷ ns) = rw (numbers-num ns)

-- one enrollment of the reply
abbrev pub enrollment : ℕ → Js
enrollment n = object (("enrollment_id", num n) ∷ [])

numbers-enrollment : (ns : List ℕ) → numbers (map enrollment_value (map enrollment ns)) ≡ ns
unfolding numbers number_of enrollment_value
numbers-enrollment [] = refl
numbers-enrollment (n ∷ ns) = rw (numbers-enrollment ns)

-- Ids in an object of the one field `enrollment_ids`, or one to an object of `enrollments` that has
-- no other field, are read back as they are, in their order.
pub extract_enrollment_ids-written :
    (ns : List ℕ)
    → (extract_enrollment_ids (object (("enrollment_ids", array (map num ns)) ∷ [])) ≡ ns)
      × (extract_enrollment_ids (object (("enrollments", array (map enrollment ns)) ∷ [])) ≡ ns)
unfolding extract_enrollment_ids
extract_enrollment_ids-written ns = (
  rw (elements-array (map num ns)) (numbers-num ns),
  rw (elements-array (map enrollment ns)) (numbers-enrollment ns),
)
