-- ===== src/Results/Laws.antt =====
-- What the table of results shows.
use tkd_chb.Base.{
  ◌≡◌, refl, String, ◌==◌, Bool, true, false, List, [], ◌∷◌, All, if◌then◌else◌, Bool-cases, inl,
  inr, arith,
}
use tkd_chb.Base.Text.{trim}
use tkd_chb.Base.Js.{
  Js, undefined, null, bool, nan, num, str, arr, obj, truthy, or_else, get, join_items,
}
use tkd_chb.Panel.{keep}
use tkd_chb.Panel.Clubs.Laws.{keep-All}
use tkd_chb.Results.{show_entry, entry_player, entry_club, entry_label, row_matches, filtered}

or_else-truthy : (x y : Js) → truthy y ≡ true → truthy (or_else x y) ≡ true
or_else-truthy x y h = elim (Bool-cases (truthy x)) [
  | inl full ↦ rw full full
  | inr blank ↦ rw blank h
]

either-truthy :
    (b : Bool) (x y : Js) → truthy x ≡ true → truthy y ≡ true → truthy (if b then x else y) ≡ true
either-truthy true x y h k = h
either-truthy false x y h k = k

entry_label-truthy : (v : Js) → truthy (entry_label v) ≡ true
entry_label-truthy v =
    or_else-truthy
      (or_else (get v "label")
        (str (join_items " — " (keep truthy (entry_player v ∷ entry_club v ∷ [])))))
      (str "—") refl

-- No cell of the table is empty: whatever an entry holds, a text or an object is shown for it.
pub show_entry-truthy : (v : Js) → truthy (show_entry v) ≡ true
unfolding show_entry
show_entry-truthy (str s) = ground arith
show_entry-truthy undefined = refl
show_entry-truthy null = refl
show_entry-truthy (bool b) =
    either-truthy b (entry_label (bool b)) (str "—") (entry_label-truthy (bool b)) refl
show_entry-truthy nan = refl
show_entry-truthy (num n) =
    either-truthy (truthy (num n)) (entry_label (num n)) (str "—") (entry_label-truthy (num n)) refl
show_entry-truthy (arr vs) = entry_label-truthy (arr vs)
show_entry-truthy (obj fs) = entry_label-truthy (obj fs)

-- Every row that a search shows matches it.
pub filtered-All :
    (query : String) (rows : List Js)
    → (trim query == "") ≡ false
    → All (λ r. row_matches (trim query) r ≡ true) (filtered query rows)
unfolding filtered
filtered-All query rows h = rw h (keep-All (row_matches (trim query)) rows)
