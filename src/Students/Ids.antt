-- ===== src/Students/Ids.antt =====
-- CoachRegisterStudents.jsx, `extractEnrollmentIds`: the ids of the enrollments in a reply of any shape.
-- An id is a natural number: `number_of` gives none for what `Number` makes NaN.
pub mod Laws
use Prim.Native.Nat.{◌+◌, ◌*◌, ◌-◌}
use Prim.Native.Char.{code}
use Prim.Native.String
use tkd_chb.Base.{
  ℕ, String, ◌==◌, Bool, true, false, not, ◌&&◌, ◌||◌, Option, none, some, List, [], ◌∷◌, ◌++◌, map,
  any, eqb, if◌then◌else◌,
}
use tkd_chb.Base.Text.{to_lower_case, trim, includes, every_char}
use tkd_chb.Base.Digits.{is_digit}
use tkd_chb.Base.Js.{
  Js, Items, Fields, undefined, null, bool, num, str, arr, obj, nil, item, end, field, truthy,
  is_nullish, coalesce, get, is_array, is_object, elements,
}

unfoldable pub digits_value : ℕ → String → ℕ
digits_value acc String.[] = acc
digits_value acc (String.◌∷◌ c s) = digits_value (acc * 10 + (code c - 48)) s

-- Number(v)
unfoldable pub number_of : Js → Option ℕ
number_of (num n) = some n
number_of null = some 0
number_of (bool b) = some (if b then 1 else 0)
number_of (str s) = if every_char is_digit (trim s) then some (digits_value 0 (trim s)) else none
number_of _ = none

abbrev pub value_of : Option ℕ → ℕ
value_of none = 0
value_of (some n) = n

abbrev pub add_number : Option ℕ → List ℕ → List ℕ
add_number none ns = ns
add_number (some n) ns = n ∷ ns

-- map(Number).filter(Number.isFinite)
unfoldable pub numbers : List Js → List ℕ
numbers [] = []
numbers (v ∷ vs) = let rest = numbers vs in add_number (number_of v) rest

-- typeof x === "number" ? x : x?.enrollment_id ?? x?.id ?? x?.pk
unfoldable pub enrollment_value : Js → Js
enrollment_value (num n) = num n
enrollment_value v = coalesce (get v "enrollment_id") (coalesce (get v "id") (get v "pk"))

-- out.add(n)
abbrev pub add_new : Option ℕ → List ℕ → List ℕ
add_new none out = out
add_new (some n) out = if any (λ k. eqb k n) out then out else out ++ n ∷ []

unfoldable pub has_key : Fields → String → Bool
has_key end k = false
has_key (field j v fs) k = j == k || has_key fs k

-- what one object of the search adds; `inside` holds where a key of the path speaks of an enrollment
unfoldable pub add_own : Bool → Fields → List ℕ → List ℕ
add_own inside fs out =
    let v = obj fs in
    let e = get v "enrollment" in
    let out₁ =
      (if has_key fs "enrollment_id"
        then add_new (number_of (get v "enrollment_id")) out
        else out) in
    let out₂ =
      (if inside && (has_key fs "id" || has_key fs "pk")
        then add_new (number_of (coalesce (get v "id") (get v "pk"))) out₁
        else out₁) in
    if truthy e && is_object e
    then add_new (number_of (coalesce (get e "enrollment_id") (coalesce (get e "id") (get e "pk"))))
        out₂
    else out₂

abbrev speaks : String → Bool
speaks k = includes (to_lower_case k) "enroll"

-- visit(v, path); a null is skipped like every value that is not true
unfoldable mutual
  pub visit : Bool → Js → List ℕ → List ℕ
  visit inside (arr vs) out = visit_items inside vs out
  visit inside (obj fs) out = visit_fields inside fs (add_own inside fs out)
  visit inside _ out = out

  pub visit_items : Bool → Items → List ℕ → List ℕ
  visit_items inside nil out = out
  visit_items inside (item v vs) out = visit_items inside vs (visit inside v out)

  pub visit_fields : Bool → Fields → List ℕ → List ℕ
  visit_fields inside end out = out
  visit_fields inside (field k v fs) out = visit_fields inside fs (visit (inside || speaks k) v out)

unfoldable pub visit_keys : Js → List String → List ℕ → List ℕ
visit_keys res [] out = out
visit_keys res (k ∷ ks) out = visit_keys res ks (visit (speaks k) (get res k) out)

-- extractEnrollmentIds(res)
unfoldable pub extract_enrollment_ids : Js → List ℕ
extract_enrollment_ids res =
    if not (truthy res)
    then []
    else if is_array (get res "enrollment_ids")
    then numbers (elements (get res "enrollment_ids"))
    else if is_array (get res "enrollments")
    then numbers (map enrollment_value (elements (get res "enrollments")))
    else visit false res
        (visit_keys res ("data" ∷ "result" ∷ "results" ∷ "payload" ∷ "created" ∷ "items" ∷ []) [])
