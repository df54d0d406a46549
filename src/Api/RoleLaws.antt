-- ===== src/Api/RoleLaws.antt =====
-- The registration buttons: who sees which.
use tkd_chb.Base.{
  ◌≡◌, ◌≢◌, refl, ap, arith, ◌&&◌, String, ◌==◌, eq_iff, Bool, true, false, not, ◌||◌,
}
use tkd_chb.Base.Text.{to_lower_case}
use tkd_chb.Base.Text.Laws.{eq_other, to_lower_case_idem}
use tkd_chb.Base.Js.{undefined, str, obj, Fields, to_text}
use tkd_chb.Storage.{Storage}
use tkd_chb.Api.Roles.{
  is_club_like, should_show_self_register, should_show_student_register, role_or_current,
}

is_club_like-lower : (r : String) → is_club_like (to_lower_case r) ≡ is_club_like r
unfolding is_club_like
is_club_like-lower r = rw (to_lower_case_idem r) refl

role_or_current_str : (r : String) (s : Storage) → r ≢ "" → role_or_current (str r) s ≡ r
unfolding role_or_current to_text
role_or_current_str r s h = ground (arith, eq_iff r "")

club_like-ne-nil : (role : String) → is_club_like role ≡ true → role ≢ ""
unfolding is_club_like to_lower_case
club_like-ne-nil role h e = ground (arith, ap is_club_like e)

lower-ne-nil : (role : String) → is_club_like role ≡ true → (to_lower_case role == "") ≡ false
unfolding is_club_like
lower-ne-nil role h =
    let r = to_lower_case role in
    ground
      (arith, eq_other r "club" "" refl, eq_other r "heyat" "" refl, eq_other r "board" "" refl)

and-false : (a : Bool) → (a && not (not false && true)) ≡ false
and-false true = refl
and-false false = refl

-- A club, a heyat or a board never sees the button of its own registration: neither for the role
-- alone nor for a competition, whatever the competition and the stored role.
pub club_like_hides_self_register :
    (role : String) (fs : Fields) (s : Storage)
    → is_club_like role ≡ true
    → (should_show_self_register (str role) undefined s ≡ false)
      × (should_show_self_register (obj fs) (str role) s ≡ false)
unfolding should_show_self_register
club_like_hides_self_register role fs s club =
    let given = club_like-ne-nil role club in
    (
      rw (role_or_current_str role s given) (rw club refl),
      rw (role_or_current_str role s given)
          (rw (is_club_like-lower role) (rw club (rw (lower-ne-nil role club) (and-false _)))),
    )

student_not_club_like :
    (role : String)
    → (to_lower_case role == "coach" || to_lower_case role == "both") ≡ true
    → is_club_like role ≡ false
unfolding is_club_like
student_not_club_like role h =
    let r = to_lower_case role in
    ground (
      arith,
      eq_other r "coach" "club" refl,
      eq_other r "coach" "heyat" refl,
      eq_other r "coach" "board" refl,
      eq_other r "both" "club" refl,
      eq_other r "both" "heyat" refl,
      eq_other r "both" "board" refl,
    )

-- Whoever sees the button for students by a role, given as a text, sees the button of the own
-- registration by that role too.
pub student_register_shows_self_register :
    (role : String) (s : Storage)
    → role ≢ ""
    → should_show_student_register (str role) undefined s ≡ true
    → should_show_self_register (str role) undefined s ≡ true
unfolding should_show_self_register should_show_student_register
student_register_shows_self_register role s given shown =
    rw (role_or_current_str role s given)
      (rw (student_not_club_like role (rw (role_or_current_str role s given) at shown)) refl)
