-- ===== src/Base/Js.antt =====
-- The values of JavaScript, as JSON replies and form fields carry them. Numbers are natural, as the
-- ids, sizes, fees and statuses of the program are; `nan` is what a failed conversion gives.
-- An object is its entries in order; where a key stands twice the first entry counts.
pub mod Laws
use Prim.Native.String.{◌++◌ as ◌<>◌}
use mathlib.Core.List.{flat_map}
use tkd_chb.Base.{
  ℕ, Bool, true, false, not, String, ◌==◌, List, [], ◌∷◌, ◌++◌, map, eqb, if◌then◌else◌,
}
use tkd_chb.Base.Text.{show_number, join}

mutual
  pub data Js : Type 0 where
    undefined : Js
    null : Js
    bool : Bool → Js
    nan : Js
    num : ℕ → Js
    str : String → Js
    arr : Items → Js
    obj : Fields → Js

  pub data Items : Type 0 where
    nil : Items
    item : Js → Items → Items

  pub data Fields : Type 0 where
    end : Fields
    field : String → Js → Fields → Fields

abbrev pub items : Items → List Js
items nil = []
items (item v vs) = v ∷ items vs

abbrev pub of_items : List Js → Items
of_items [] = nil
of_items (v ∷ vs) = item v (of_items vs)

abbrev pub entries : Fields → List (String × Js)
entries end = []
entries (field k v fs) = (k, v) ∷ entries fs

abbrev pub of_entries : List (String × Js) → Fields
of_entries [] = end
of_entries ((k, v) ∷ es) = field k v (of_entries es)

abbrev pub array : List Js → Js
array vs = arr (of_items vs)

abbrev pub object : List (String × Js) → Js
object es = obj (of_entries es)

-- Boolean(v), and every test `if (v)`
abbrev pub truthy : Js → Bool
truthy undefined = false
truthy null = false
truthy (bool b) = b
truthy nan = false
truthy (num n) = not (eqb n 0)
truthy (str s) = not (s == "")
truthy (arr _) = true
truthy (obj _) = true

-- v == null
abbrev pub is_nullish : Js → Bool
is_nullish undefined = true
is_nullish null = true
is_nullish _ = false

-- a ?? b
abbrev pub coalesce : Js → Js → Js
coalesce a b = if is_nullish a then b else a

-- a || b
abbrev pub or_else : Js → Js → Js
or_else a b = if truthy a then a else b

abbrev pub lookup : List (String × Js) → String → Js
lookup [] k = undefined
lookup ((j, v) ∷ es) k = if j == k then v else lookup es k

-- v?.k
abbrev pub get : Js → String → Js
get (obj fs) k = lookup (entries fs) k
get _ k = undefined

abbrev pub is_array : Js → Bool
is_array (arr _) = true
is_array _ = false

-- typeof v === "object", for a v that is not null
abbrev pub is_object : Js → Bool
is_object (arr _) = true
is_object (obj _) = true
is_object _ = false

-- v === r, for a text r
abbrev pub is_text : Js → String → Bool
is_text (str s) r = s == r
is_text v r = false

-- the elements of an array
abbrev pub elements : Js → List Js
elements (arr vs) = items vs
elements _ = []

-- Object.values(v)
abbrev pub values : Js → List Js
values (arr vs) = items vs
values (obj fs) = map (λ e. e.1) (entries fs)
values _ = []

-- one level of `flat`
abbrev pub flat : List Js → List Js
flat [] = []
flat (arr vs ∷ r) = items vs ++ flat r
flat (v ∷ r) = v ∷ flat r

bool_text : Bool → String
bool_text true = "true"
bool_text false = "false"

-- String(v); in an array null and undefined are empty
unfoldable mutual
  unfolding bool_text

  pub to_text : Js → String
  to_text undefined = "undefined"
  to_text null = "null"
  to_text (bool b) = bool_text b
  to_text nan = "NaN"
  to_text (num n) = show_number n
  to_text (str s) = s
  to_text (arr vs) = join "," (item_texts vs)
  to_text (obj fs) = "[object Object]"

  pub item_texts : Items → List String
  item_texts nil = []
  item_texts (item undefined vs) = "" ∷ item_texts vs
  item_texts (item null vs) = "" ∷ item_texts vs
  item_texts (item v vs) = to_text v ∷ item_texts vs

-- vs.join(sep)
abbrev pub join_items : String → List Js → String
join_items sep vs = join sep (item_texts (of_items vs))
