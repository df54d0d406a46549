-- ===== src/Api/Roles.antt =====
-- api/competitions.js: the role helpers that show or hide the registration buttons.
use tkd_chb.Base.{String, ◌==◌, Bool, true, not, ◌&&◌, ◌||◌, if◌then◌else◌}
use tkd_chb.Base.Text.{to_lower_case}
use tkd_chb.Base.Js.{Js, undefined, str, truthy, coalesce, or_else, get, is_object, to_text}
use tkd_chb.Storage.{Storage}
use tkd_chb.Session.{user_role}

unfoldable pub current_role : Storage → String
current_role s = to_lower_case (user_role s)

-- isClubLike(role), of a text
unfoldable pub is_club_like : String → Bool
is_club_like role = let r = to_lower_case role in r == "club" || r == "heyat" || r == "board"

-- the role that was passed, or the stored one
unfoldable pub role_or_current : Js → Storage → String
role_or_current v s = to_text (or_else v (str (current_role s)))

-- an argument left out takes the default getCurrentRole()
default_role : Js → Storage → Js
default_role undefined s = str (current_role s)
default_role v s = v

unfoldable pub registration_flag : Js → Js
registration_flag c =
    coalesce (get c "registration_open_effective")
      (coalesce (get c "registration_open") (coalesce (get c "can_register") (get c "canRegister")))

self_register_for : Js → Js → Storage → Bool
unfolding registration_flag role_or_current
self_register_for c user_role s =
    let role = to_lower_case (role_or_current user_role s) in
    truthy (registration_flag c) && not (not (role == "") && is_club_like role)

self_register : Js → Js → Storage → Bool
unfolding self_register_for role_or_current
self_register v user_role s =
    if is_object v
    then self_register_for v user_role s
    else not (is_club_like (role_or_current v s))

-- shouldShowSelfRegister(competitionOrRole, userRoleIfAny)
unfoldable pub should_show_self_register : Js → Js → Storage → Bool
unfolding self_register default_role
should_show_self_register v user_role s = self_register (default_role v s) user_role s

-- typeof null is "object"
is_object_or_null : Js → Bool
is_object_or_null Js.null = true
is_object_or_null v = is_object v

student_role : Js → Js → Storage → String
unfolding is_object_or_null role_or_current
student_role v user_role s =
    if is_object_or_null v then role_or_current user_role s else role_or_current v s

-- shouldShowStudentRegister(competitionOrRole, userRoleIfAny)
unfoldable pub should_show_student_register : Js → Js → Storage → Bool
unfolding student_role default_role
should_show_student_register v user_role s =
    let role = to_lower_case (student_role (default_role v s) user_role s) in
    role == "coach" || role == "both"
