-- ===== src/Profile/Examples.antt =====
-- An edit of a profile.
use tkd_chb.Base.{◌≡◌, refl, String, Bool, true, false, [], ◌∷◌}
use tkd_chb.Base.Js.{Js, bool, str, end, obj}
use tkd_chb.Net.{World}
use tkd_chb.Axios.{resolved}
use tkd_chb.Register.{Form, js, text}
use tkd_chb.Profile.{Info, initial_info, handle_change_info, has_form_changed}
use tkd_chb.Profile.Submit.{Post, edit_fields, complete_data, submit_edit}
use tkd_chb.Profile.Laws.{
  IsSettled, all_plain, submit_edit-IsSettled, submit_edit-unchanged, handle_change_info-plain,
}

abbrev a_referee : Form
a_referee =
    ("city", text "\u{631}\u{6cc}")
    ∷ ("is_referee", js (bool true))
    ∷ ("kyorogi", js (bool true))
    ∷ ("kyorogi_level", text "2")
    ∷ []

abbrev a_form : Info
a_form = record initial_info {
  person = a_referee;
  original = [];
  loaded = true;
  show_confirm_modal = true;
}

abbrev taking : Post
taking fields w = (resolved (obj end), w)

abbrev brief : Js → String
brief v = "{}"

abbrev no_text : String → Bool
no_text s = false

abbrev fresh : World
fresh = record { storage = []; sent = [] }

submit_edit-IsSettled_example :
    IsSettled taking
      (edit_fields brief (complete_data no_text a_form))
      a_form
      (submit_edit taking brief no_text a_form fresh).0
      fresh
      (submit_edit taking brief no_text a_form fresh).1
submit_edit-IsSettled_example = submit_edit-IsSettled taking brief no_text a_form fresh

submit_edit-unchanged_example :
    has_form_changed (submit_edit taking brief no_text a_form fresh).0 ≡ false
submit_edit-unchanged_example =
    submit_edit-unchanged taking brief no_text a_form fresh (obj end) refl refl refl

handle_change_info-plain_example :
    all_plain
      (handle_change_info
        (λ url ps w. (resolved (obj end), w))
        []
        "city"
        (str "\u{631}\u{6cc}")
        a_form
        fresh).0.person
    ≡ true
handle_change_info-plain_example =
    handle_change_info-plain (λ url ps w. (resolved (obj end), w)) [] "city" (str "\u{631}\u{6cc}")
      a_form fresh refl refl
