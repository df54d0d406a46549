-- ===== src/Api/Values.antt =====
-- api/competitions.js: `compact`, `normalizeList`, and what the endpoints read from payloads.
use tkd_chb.Base.{◌==◌, Bool, true, false, not, List, [], if◌then◌else◌}
use tkd_chb.Base.Text.{trim}
use tkd_chb.Base.Js.{
  Js, undefined, null, str, Fields, end, field, truthy, get, is_array, elements, to_text,
}
use tkd_chb.Base.Exec.{Result, ok, err, error}

-- The values that `compact` sends: not undefined or null, and no blank text.
unfoldable pub is_sent : Js → Bool
is_sent undefined = false
is_sent null = false
is_sent (str s) = not (trim s == "")
is_sent _ = true

unfoldable pub compact : Fields → Fields
unfolding is_sent
compact end = end
compact (field k v fs) = let rest = compact fs in if is_sent v then field k v rest else rest

-- the first of the value itself and its keys `results`, `items` and `competitions` that is an array
unfoldable pub normalize_list : Js → List Js
normalize_list res =
    if is_array res
    then elements res
    else if is_array (get res "results")
    then elements (get res "results")
    else if is_array (get res "items")
    then elements (get res "items")
    else if is_array (get res "competitions")
    then elements (get res "competitions")
    else []

-- (v ?? "").trim(), which throws where v is no text
unfoldable pub trimmed : Js → Result Js
trimmed undefined = ok (str "")
trimmed null = ok (str "")
trimmed (str s) = ok (str (trim s))
trimmed _ = err (error "trim is not a function")

-- v ? String(v).trim() : undefined
unfoldable pub trimmed_text : Js → Js
trimmed_text v = if truthy v then str (trim (to_text v)) else undefined
