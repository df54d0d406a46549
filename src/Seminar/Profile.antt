-- ===== src/Seminar/Profile.antt =====
-- SeminarDetail.jsx: what the page shows of the registering person and of the dates.
use Prim.Native.String.{◌++◌ as ◌<>◌}
use Prim.Native.Char.{Char, code}
use tkd_chb.Base.{String, ◌==◌, not, ◌&&◌, List, [], ◌∷◌, eqb, if◌then◌else◌}
use tkd_chb.Base.Text.{trim, map_chars, slice_to, pieces, nth_char}
use tkd_chb.Base.Digits.{to_fa}
use tkd_chb.Base.Js.{Js, truthy, get, undefined, is_nullish, to_text}

-- k.split(".").reduce((acc, part) => (acc ? acc[part] : undefined), obj)
abbrev walk_path : List String → Js → Js
walk_path [] v = v
walk_path (part ∷ parts) v = walk_path parts (if truthy v then get v part else undefined)

first_key : Js → List String → String → String
first_key v [] fallback = fallback
first_key v (k ∷ ks) fallback =
    let val = walk_path (pieces (λ c. eqb (code c) 46) k) v in
    let rest = first_key v ks fallback in
    if not (is_nullish val) && not (trim (to_text val) == "") then to_text val else rest

-- pickFirst(obj, keys, fallback)
unfoldable pub pick_first : Js → List String → String → String
unfolding first_key
pick_first v keys fallback = if truthy v then first_key v keys fallback else fallback

-- the first of two texts that is not empty
abbrev pub or_text : String → String → String
or_text s t = if s == "" then t else s

abbrev name_in : Js → String
name_in v =
    or_text (pick_first v ("full_name" ∷ "name" ∷ []) "")
      (trim (pick_first v ("first_name" ∷ []) "" <> " " <> pick_first v ("last_name" ∷ []) ""))

-- fullName
unfoldable pub full_name : Js → Js → String
full_name mini profile = or_text (name_in mini) (or_text (name_in profile) "—")

unfoldable pub national_code_raw : Js → Js → String
national_code_raw mini profile =
    or_text
      (pick_first mini
        ("national_code" ∷ "nationalCode" ∷ "nationalcode" ∷ "national_id" ∷ "nationalId"
          ∷ "melli_code" ∷ "melliCode" ∷ [])
        "")
      (pick_first profile
        ("national_code" ∷ "nationalCode" ∷ "user.national_code" ∷ "profile.national_code" ∷ "nid"
          ∷ "national_id" ∷ "nationalId" ∷ "national_number" ∷ "nationalNumber" ∷ [])
        "")

-- nationalCode
unfoldable pub national_code : Js → Js → String
national_code mini profile =
    let raw = national_code_raw mini profile in if raw == "" then "—" else to_fa raw

-- beltTitle
unfoldable pub belt_title : Js → Js → String
belt_title mini profile =
    or_text
      (pick_first mini
        ("belt_grade" ∷ "beltGrade" ∷ "belt_title" ∷ "beltTitle" ∷ "belt_name" ∷ "beltName"
          ∷ "rank_title" ∷ "rank" ∷ [])
        "")
      (or_text
        (pick_first profile
          ("belt_grade" ∷ "beltGrade" ∷ "belt_title" ∷ "beltTitle" ∷ "belt_name" ∷ "beltName"
            ∷ "rank_title" ∷ "rank" ∷ "belt_group_label" ∷ "beltGroupLabel" ∷ "belt_group.label"
            ∷ "belt.label" ∷ [])
          "")
        "—")

abbrev slash_char : Char → Char
slash_char c = if eqb (code c) 45 then nth_char "/" 0 else c

-- fmtDateFa(gDate, faStr)
unfoldable pub fmt_date_fa : Js → Js → String
fmt_date_fa g_date fa_str =
    let from_g =
      (if truthy g_date then map_chars slash_char (slice_to 10 (to_text g_date)) else "") in
    let base = (if truthy fa_str then to_text fa_str else from_g) in
    if base == "" then "—" else to_fa base
