-- ===== src/Details/Locked/Laws.antt =====
-- The locked profile: what a merge keeps, and that normalizing a normalized profile changes nothing.
use tkd_chb.Base.{
  ◌≡◌, refl, sym, ◌∙◌, ◌⊎◌, inl, inr, String, ◌==◌, eq_iff, Bool, true, false, not, ◌&&◌, List, [],
  ◌∷◌, any, if◌then◌else◌, arith, Bool-cases,
}
use tkd_chb.Base.Text.{trim, map_chars, filter_chars, to_lower_case, includes}
use tkd_chb.Details.Eligibility.{persian_letter}
use tkd_chb.Details.Locked.{find_national_id_deep, is_nat_key, clean_key}
use tkd_chb.Base.Js.{
  Js, str, null, get, object, entries, of_entries, to_text, lookup, truthy, is_object,
}
use tkd_chb.Details.Locked.{
  is_filled, set_field, merge_keys, merged_keys, merge_locked_profiles, pick_from, pick_first,
  locked_entries, normalize_locked_profile, text_fields,
}

entries-of_entries : (es : List (String × Js)) → entries (of_entries es) ≡ es
entries-of_entries [] = refl
entries-of_entries ((k, v) ∷ es) = rw (entries-of_entries es)

lookup-set_field :
    (k : String) (v : Js) (es : List (String × Js)) (j : String)
    → lookup (set_field k v es) j ≡ (if k == j then v else lookup es j)
unfolding set_field
lookup-set_field k v [] j = refl
lookup-set_field k v ((i, w) ∷ es) j =
    ground (arith, lookup-set_field k v es j, eq_iff i k, eq_iff i j, eq_iff k j)

lookup-merge_keys :
    (new : Js) (ks : List String) (es : List (String × Js)) (j : String)
    → lookup (merge_keys new ks es) j ≡ (
        if any (λ k. k == j) ks && is_filled (get new j)
        then str (to_text (get new j))
        else lookup es j)
unfolding merge_keys
lookup-merge_keys new [] es j = refl
lookup-merge_keys new (k ∷ ks) es j = elim (Bool-cases (is_filled (get new k))) [
  | inl filled ↦ rw filled (
      ground (
        arith,
        lookup-merge_keys new ks (set_field k (str (to_text (get new k))) es) j,
        lookup-set_field k (str (to_text (get new k))) es j,
        eq_iff k j,
        same k filled,
      ))
  | inr blank ↦
      rw blank (ground (arith, lookup-merge_keys new ks es j, eq_iff k j, differs k blank))
]
  where
    same : (i : String) → is_filled (get new i) ≡ true → i ≡ j → is_filled (get new j) ≡ true
    same i h e = rw (sym e) h

    differs : (i : String) → is_filled (get new i) ≡ false → i ≡ j → is_filled (get new j) ≡ false
    differs i h e = rw (sym e) h

-- Two profiles that are there: a key of the form reads what the new profile fills in, and what the
-- old one held where the new one leaves it blank; any other key reads as in the old profile.
pub get-merge_locked_profiles :
    (old new : List (String × Js)) (k : String)
    → get (merge_locked_profiles (object old) (object new)) k ≡ (
        if any (λ j. j == k) merged_keys && is_filled (get (object new) k)
        then str (to_text (get (object new) k))
        else get (object old) k)
unfolding merge_locked_profiles
get-merge_locked_profiles old new k = rw (entries-of_entries old) (
    rw (entries-of_entries (merge_keys (object new) merged_keys old))
      (lookup-merge_keys (object new) merged_keys old k))

-- A profile of seven texts.
abbrev pub seven : (a b c d e f g : String) → List (String × String)
seven a b c d e f g =
    ("first_name", a)
    ∷ ("last_name", b)
    ∷ ("national_id", c)
    ∷ ("birth_date", d)
    ∷ ("belt", e)
    ∷ ("club", f)
    ∷ ("coach", g)
    ∷ []

abbrev full_or_empty : String → String
full_or_empty s = if not (s == "") then s else ""

abbrev picked : String → String
picked s = if full_or_empty s == "" then "" else full_or_empty s

picked_same : (s : String) → picked s ≡ s
picked_same s = ground (arith, eq_iff s "")

abbrev or_none : String → String
or_none s = if s == "" then "" else s

or_none_same : (s : String) → or_none s ≡ s
or_none_same s = ground (arith, eq_iff s "")

seven_same :
    (p : String → String)
    → ((s : String) → p s ≡ s)
    → (a b c d e f g : String)
    → seven (p a) (p b) (or_none (p c)) (p d) (p e) (p f) (p g) ≡ seven a b c d e f g
seven_same p same a b c d e f g =
    rw (same a, same b, same c, same d, same e, same f, same g, or_none_same c)

locked_entries-seven :
    (a b c d e f g : String)
    → locked_entries (text_fields (seven a b c d e f g)) ≡ seven a b c d e f g
unfolding locked_entries pick_from pick_first find_national_id_deep is_nat_key clean_key map_chars
    filter_chars to_lower_case includes to_text persian_letter
locked_entries-seven a b c d e f g = seven_same picked picked_same a b c d e f g

locked_entries-are_seven :
    (src : Js)
    → (a : String) × (b : String) × (c : String) × (d : String) × (e : String) × (f : String)
      × (g : String) × (locked_entries src ≡ seven a b c d e f g)
unfolding locked_entries
locked_entries-are_seven src = (_, _, _, _, _, _, _, refl)

abbrev pub has_text : List (String × String) → Bool
has_text es = any (λ e. not (trim e.1 == "")) es

-- What `normalizeLockedProfile` gives.
pub data Profile (src : Js) : Type 0 where
  no_profile : normalize_locked_profile src ≡ null → Profile src
  profile :
      (a b c d e f g : String)
      → has_text (seven a b c d e f g) ≡ true
      → normalize_locked_profile src ≡ text_fields (seven a b c d e f g)
      → Profile src

normalized :
    (es fs : List (String × String)) (src : Js)
    → (if truthy src && is_object src && has_text es then text_fields es else null)
      ≡ normalize_locked_profile src
    → es ≡ fs
    → (normalize_locked_profile src ≡ null)
      ⊎ ((has_text fs ≡ true) × (normalize_locked_profile src ≡ text_fields fs))
normalized es fs src n e = elim (Bool-cases (truthy src && is_object src && has_text es)) [
  | inl held ↦ inr (rw (sym e) (ground arith), sym n ∙ rw (held, e))
  | inr failed ↦ inl (sym n ∙ rw failed)
]

pub Profile-of : (src : Js) → Profile src
Profile-of src =
    let (a, b, c, d, e, f, g, shape) = locked_entries-are_seven src in
    elim (normalized (locked_entries src) (seven a b c d e f g) src
      (unfold normalize_locked_profile in refl) shape) [
        | inl absent ↦ no_profile absent
        | inr (full, there) ↦ profile a b c d e f g full there
      ]

text_fields-normalized :
    (a b c d e f g : String)
    → has_text (seven a b c d e f g) ≡ true
    → normalize_locked_profile (text_fields (seven a b c d e f g))
      ≡ text_fields (seven a b c d e f g)
unfolding normalize_locked_profile
text_fields-normalized a b c d e f g full = rw (locked_entries-seven a b c d e f g) (rw full refl)

-- Normalizing a locked profile once more changes nothing: neither where there is one nor where
-- there is none.
pub normalize_locked_profile_idem :
    (src : Js)
    → normalize_locked_profile (normalize_locked_profile src) ≡ normalize_locked_profile src
normalize_locked_profile_idem src = elim (Profile-of src) [
  | no_profile absent ↦ rw absent (unfold normalize_locked_profile in refl)
  | profile a b c d e f g full there ↦ rw there (text_fields-normalized a b c d e f g full)
]
