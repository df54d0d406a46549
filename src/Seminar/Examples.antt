-- ===== src/Seminar/Examples.antt =====
-- A coach at the page of a seminar for coaches.
use tkd_chb.Base.{◌≡◌, refl, true, false, [], ◌∷◌, ◌++◌}
use tkd_chb.Base.Text.{to_lower_case}
use tkd_chb.Base.Js.{get, null, str, array, object}
use tkd_chb.Storage.{Storage, get_item}
use tkd_chb.Session.{user_role, text_or_empty}
use tkd_chb.Net.{World}
use tkd_chb.Axios.{resolved, Axios}
use tkd_chb.Seminar.{
  Detail, role_array_from_role, seminar_role, seminar_token, can_register_by_role,
  registration_request, on_confirm_and_pay,
}
use tkd_chb.Seminar.Laws.{
  sent_roles, ShowsOutcome, on_confirm_and_pay-can_register, on_confirm_and_pay-ShowsOutcome,
}

abbrev axios : Axios
axios req w =
    (resolved (object (("status", str "ok") ∷ [])), record w { sent = w.sent ++ req ∷ [] })

abbrev coach : Storage
coach = ("user_role", "coach") ∷ ("coach_token", "t") ∷ []

abbrev world : World
world = record { storage = coach; sent = [] }

abbrev page : Detail
page = record {
  seminar = object (("allowed_roles", array (str "coach" ∷ [])) ∷ []);
  profile = null;
  mini_profile = null;
  loading = false;
  error = str "";
  show_confirm = true;
  registering = false;
  success_msg = "";
  already_registered = false;
  went = [];
}

on_confirm_and_pay-can_register_example :
    ((on_confirm_and_pay axios "http://x" "s1" coach page world).1
      ≡ (axios (registration_request "http://x" "s1" coach) world).1)
    × ((registration_request "http://x" "s1" coach).method ≡ "POST")
    × (get (registration_request "http://x" "s1" coach).body "roles"
        ≡ sent_roles (seminar_role coach))
    × ((on_confirm_and_pay axios "http://x" "s1" coach page world).0.registering ≡ false)
unfolding can_register_by_role seminar_role seminar_token user_role text_or_empty get_item
    to_lower_case role_array_from_role
on_confirm_and_pay-can_register_example =
    on_confirm_and_pay-can_register axios "http://x" "s1" coach page world refl refl refl

on_confirm_and_pay-ShowsOutcome_example :
    ShowsOutcome
      (axios (registration_request "http://x" "s1" coach) world)
      page
      world
      (on_confirm_and_pay axios "http://x" "s1" coach page world).0
      (on_confirm_and_pay axios "http://x" "s1" coach page world).1
on_confirm_and_pay-ShowsOutcome_example =
    on_confirm_and_pay-ShowsOutcome axios "http://x" "s1" coach page world
