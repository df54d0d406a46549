-- ===== src/Profile/Laws.antt =====
-- The end of an edit, and the form after it.
use Prim.Native.String.{◌++◌ as ◌<>◌}
use tkd_chb.Base.{
  ◌≡◌, ◌≢◌, refl, ap, String, ◌==◌, eq_refl, Bool, true, false, not, ◌||◌, Option, List, [], ◌∷◌,
  any, every, if◌then◌else◌, arith, Bool-cases, inl, inr,
}
use tkd_chb.Base.Text.{length_text, join}
use tkd_chb.Base.Js.{
  Js, Items, Fields, undefined, null, bool, nan, num, str, arr, obj, nil, item, end, field,
  is_object,
}
use tkd_chb.Net.{World}
use tkd_chb.Axios.{Answer, resolved, rejected, Rejection}
use tkd_chb.Register.{Entry, js, file, Form, set_entry, field_of, is_given}
use tkd_chb.Register.Phone.Typed.{length_text-append}
use tkd_chb.Profile.{
  GetWith, Provinces, handle_change_info, Info, referee_kinds, level_errors, with_message,
  validate_referee_levels, alike, alike_items, alike_fields, is_nan, same_entry, is_file,
  has_form_changed, keys_of,
}
use tkd_chb.Profile.Submit.{
  Post, NotNumber, complete_data, edit_fields, failure_message, errors_of, edited, sending,
  submit_edit,
}

abbrev has_level : Form → String → Bool
has_level d type = not (is_given (field_of d type)) || is_given (field_of d (type <> "_level"))

-- A referee has a national level of each chosen type.
abbrev pub levels_filled : Form → Bool
levels_filled d = not (is_given (field_of d "is_referee")) || every (has_level d) referee_kinds

abbrev is_none_left : List String → Bool
is_none_left [] = true
is_none_left (_ ∷ _) = false

level_errors-filled :
    (d : Form) (types : List String)
    → is_none_left (level_errors d types) ≡ every (has_level d) types
unfolding level_errors
level_errors-filled d [] = refl
level_errors-filled d (type ∷ types) = ground (arith, level_errors-filled d types)

with_message-passed : (es : List String) (p : Info) → (with_message es p).1 ≡ is_none_left es
with_message-passed [] p = refl
with_message-passed (e ∷ es) p = refl

validate_referee_levels-passed : (p : Info) → (validate_referee_levels p).1 ≡ levels_filled p.person
unfolding validate_referee_levels
validate_referee_levels-passed p = ground (
  arith,
  with_message-passed (level_errors p.person referee_kinds) p,
  level_errors-filled p.person referee_kinds,
)

mutual
  unfolding alike alike_items alike_fields

  alike_same : (v : Js) → alike v v ≡ true
  alike_same undefined = refl
  alike_same null = refl
  alike_same (bool true) = refl
  alike_same (bool false) = refl
  alike_same nan = refl
  alike_same (num n) = ground arith
  alike_same (str s) = eq_refl s
  alike_same (arr vs) = alike_items_same vs
  alike_same (obj fs) = alike_fields_same fs

  alike_items_same : (vs : Items) → alike_items vs vs ≡ true
  alike_items_same nil = refl
  alike_items_same (item v vs) = rw (alike_same v) (alike_items_same vs)

  alike_fields_same : (fs : Fields) → alike_fields fs fs ≡ true
  alike_fields_same end = refl
  alike_fields_same (field k v fs) = ground (arith, eq_refl k, alike_same v, alike_fields_same fs)

-- A value that equals itself.
abbrev pub is_plain : Entry → Bool
is_plain (js v) = not (is_nan v)
is_plain (file mime size) = false

abbrev pub all_plain : Form → Bool
all_plain d = every (λ e. is_plain e.1) d

field_of-plain : (d : Form) (k : String) → all_plain d ≡ true → is_plain (field_of d k) ≡ true
field_of-plain [] k h = refl
field_of-plain ((j, v) ∷ d) k h = elim (Bool-cases (j == k)) [
  | inl same ↦ rw same (ground arith)
  | inr other ↦ rw other (field_of-plain d k (ground arith))
]

same_entry-plain : (v : Entry) → is_plain v ≡ true → same_entry v v ≡ true
unfolding same_entry
same_entry-plain (js v) h = rw (alike_same v) h
same_entry-plain (file mime size) h = absurd (ground arith)

unchanged :
    (d : Form) (ks : List String)
    → all_plain d ≡ true
    → any (λ k. not (same_entry (field_of d k) (field_of d k))) ks ≡ false
unchanged d [] h = refl
unchanged d (k ∷ ks) h =
    rw (same_entry-plain (field_of d k) (field_of-plain d k h)) (unchanged d ks h)

plain-is_file : (v : Entry) → is_plain v ≡ true → is_file v ≡ false
plain-is_file (js v) h = refl
plain-is_file (file mime size) h = absurd (ground arith)

edited-unchanged :
    (v : Js) (p : Info)
    → all_plain p.person ≡ true
    → has_form_changed (record (edited (resolved v) (sending p)) { is_submitting = false }) ≡ false
unfolding has_form_changed edited
edited-unchanged v p h =
    let no_picture = plain-is_file _ (field_of-plain p.person "profile_image" h) in
    let same = unchanged p.person (keys_of p.person) h in ground (arith, no_picture, same)

full-append : (s t : String) → (s == "") ≡ false → (s <> t) ≢ ""
unfolding length_text
full-append String.[] t h e = absurd (ground arith)
full-append (String.◌∷◌ c s) t h e =
    let lengths : length_text (String.◌∷◌ c s <> t) ≡ length_text "" = ap length_text e in
    absurd (omega (arith, lengths, length_text-append (String.◌∷◌ c s) t))

failure_message-full : (e : Option Rejection) → failure_message e ≢ ""
unfolding failure_message
failure_message-full e = elim (Bool-cases (is_object (errors_of e))) [
  | inl listed ↦ rw listed (full-append _ _ refl)
  | inr other ↦ rw other (λ q. cc)
]

if-full :
    (b : Bool) (p q : Info)
    → p.modal_message ≢ ""
    → q.modal_message ≢ ""
    → (if b then p else q).modal_message ≢ ""
if-full true p q h k = h
if-full false p q h k = k

edited-full : (r : Answer) (p : Info) → (edited r p).modal_message ≢ ""
unfolding edited
edited-full (rejected e) p = failure_message-full e
edited-full (resolved v) p =
    if-full (is_file (field_of p.person "profile_image")) _ _ (λ e. cc) (λ e. cc)

with_message-held :
    (es : List String) (p : Info)
    → is_none_left es ≡ false
    → (with_message es p).0 ≡ record p { modal_message = join "\n" es }
with_message-held [] p h = absurd (ground arith)
with_message-held (e ∷ es) p h = refl

abbrev told : Info → Info
told p = record p { modal_message = join "\n" (level_errors p.person referee_kinds) }

validate_referee_levels-held :
    (p : Info) → levels_filled p.person ≡ false → (validate_referee_levels p).0 ≡ told p
unfolding validate_referee_levels
validate_referee_levels-held p h =
    let referee : not (is_given (field_of p.person "is_referee")) ≡ false = ground arith in
    let missing : is_none_left (level_errors p.person referee_kinds) ≡ false =
      ground (arith, level_errors-filled p.person referee_kinds) in
    rw referee (with_message-held (level_errors p.person referee_kinds) p missing)

edited-closed : (r : Answer) (p : Info) → (edited r (sending p)).show_confirm_modal ≡ false
unfolding edited
edited-closed (rejected e) p = refl
edited-closed (resolved v) p = ground arith

-- How an edit ends: the person is told which levels are missing and nothing is sent, or one post is
-- made, the window of the confirmation is closed, and a message tells the result.
pub data IsSettled (post : Post) (fields : List (String × Entry)) (p q : Info) (w w' : World)
    : Type 0 where
  held : levels_filled p.person ≡ false → q ≡ told p → w' ≡ w → IsSettled post fields p q w w'
  posted :
      levels_filled p.person ≡ true
      → q.show_confirm_modal ≡ false
      → q.is_submitting ≡ false
      → q.modal_message ≢ ""
      → w' ≡ (post fields w).1
      → IsSettled post fields p q w w'

module _ (post : Post) (stringify : Js → String) (not_number : NotNumber) (p : Info)
    (w : World) where
  abbrev fields : List (String × Entry)
  fields = edit_fields stringify (complete_data not_number p)

  submitted : Bool → Info × World
  submitted passed =
      if passed
      then (
        record (edited (post fields w).0 (sending p)) { is_submitting = false },
        (post fields w).1,
      )
      else ((validate_referee_levels p).0, w)

  submit_edit-submitted :
      submit_edit post stringify not_number p w ≡ submitted (levels_filled p.person)
  unfolding submit_edit submitted
  submit_edit-submitted = rw (← validate_referee_levels-passed p) refl

  submitted-IsSettled :
      (b : Bool)
      → levels_filled p.person ≡ b
      → IsSettled post fields p (submitted b).0 w (submitted b).1
  unfolding submitted
  submitted-IsSettled true h = posted h (edited-closed _ p) refl (edited-full _ (sending p)) refl
  submitted-IsSettled false h = held h (validate_referee_levels-held p h) refl

  -- A confirmed edit of a referee who left out the national level of a chosen type is held back with
  -- a message; every other makes one post, whatever the answer closes the window, and ends with a
  -- message and not submitting.
  pub submit_edit-IsSettled :
      IsSettled post
        (edit_fields stringify (complete_data not_number p))
        p
        (submit_edit post stringify not_number p w).0
        w
        (submit_edit post stringify not_number p w).1
  submit_edit-IsSettled =
      rw submit_edit-submitted (submitted-IsSettled (levels_filled p.person) refl)

  -- After an edit that the server took, of a form without a picture, the form counts as unchanged, so
  -- that its button is off.
  pub submit_edit-unchanged :
      (v : Js)
      → levels_filled p.person ≡ true
      → all_plain p.person ≡ true
      → (post (edit_fields stringify (complete_data not_number p)) w).0 ≡ resolved v
      → has_form_changed (submit_edit post stringify not_number p w).0 ≡ false
  unfolding submitted
  submit_edit-unchanged v full plain taken =
      rw submit_edit-submitted (rw (full, taken) (edited-unchanged v p plain))

set_entry-plain :
    (k : String) (v : Entry) (d : Form)
    → is_plain v ≡ true
    → all_plain d ≡ true
    → all_plain (set_entry k v d) ≡ true
unfolding set_entry
set_entry-plain k v [] h g = ground arith
set_entry-plain k v ((j, w) ∷ d) h g = ground (arith, set_entry-plain k v d h)

if-plain :
    (b : Bool) (x y : Info × World)
    → all_plain x.0.person ≡ true
    → all_plain y.0.person ≡ true
    → all_plain (if b then x else y).0.person ≡ true
if-plain true x y h k = h
if-plain false x y h k = k

-- What is typed or chosen keeps a form without a picture comparable: its values equal themselves.
pub handle_change_info-plain :
    (get_with : GetWith) (table : Provinces) (name : String) (v : Js) (p : Info) (w : World)
    → is_nan v ≡ false
    → all_plain p.person ≡ true
    → all_plain (handle_change_info get_with table name v p w).0.person ≡ true
unfolding handle_change_info
handle_change_info-plain get_with table name v p w real h =
    let changed = set_entry-plain name (js v) p.person (ground arith) h in
    let empty : (k : String) (d : Form)
        → all_plain d ≡ true
        → all_plain (set_entry k (js (str "")) d) ≡ true =
      λ k d g. set_entry-plain k (js (str "")) d refl g in
    if-plain (name == "province") _ _ (empty "city" _ (empty "county" _ changed)) (
      if-plain (name == "county") _ _ (empty "city" _ changed)
        (if-plain (name == "club") _ _ (empty "coach" _ changed) changed))
