-- ===== src/Details/Modals.antt =====
-- CompetitionDetails.jsx: opening the forms, the effect that looks up the user's card, and the modal
-- of the coach's code. A component that is taken off the page while a request runs is left out.
use Prim.Native.String.{◌++◌ as ◌<>◌}
use tkd_chb.Base.{String, ◌==◌, Bool, true, false, not, ◌&&◌, ◌||◌, [], ◌∷◌, if◌then◌else◌}
use tkd_chb.Base.Text.{encode_uri_component}
use tkd_chb.Base.Js.{Js, null, bool, str, truthy, coalesce, or_else, get}
use tkd_chb.Base.Exec.{Result, ok, err}
use tkd_chb.Net.{Server, World}
use tkd_chb.Storage.{get_item}
use tkd_chb.Session.{text_or_empty}
use tkd_chb.Api.Endpoints.{
  get_register_self_prefill, build_poomsae_prefill, get_coach_approval_status,
  get_poomsae_coach_approval_status, approve_competition, approve_poomsae_competition,
  get_my_enrollment, get_my_poomsae_enrollments,
}
use tkd_chb.Details.Eligibility.{Discipline, kyorugi, poomsae}
use tkd_chb.Details.Locked.{
  normalize_locked_profile, merge_locked_profiles, locked_from_competition,
}
use tkd_chb.Details.Window.{Clock, can_click_self, reg_open_eff}
use tkd_chb.Details.Form.{Form}
use tkd_chb.Details.Submit.{CardInfo, CodeModal, View, message_or, go, say}

abbrev is_role : String → String → Bool
is_role role r = role == r

-- isPlayer, isCoach, isRef
abbrev pub is_player : String → Bool
is_player role = is_role role "player" || is_role role "both"

abbrev pub needs_code : String → Bool
needs_code role = not (is_role role "coach" || is_role role "both" || is_role role "referee")

abbrev suggested : Js → String → Js
suggested res k = coalesce (get (get res "suggested") k) (str "")

unfoldable pub prefilled_ky : String → Result Js → Form → Form
prefilled_ky role (ok res) reg = record reg {
  loading = false;
  can_register = truthy (get res "can_register");
  need_coach_code = needs_code role;
  locked = merge_locked_profiles reg.locked (normalize_locked_profile (get res "locked"));
  weight = suggested res "weight";
  insurance_number = suggested res "insurance_number";
  insurance_issue_date = suggested res "insurance_issue_date";
}
prefilled_ky role (err e) reg = record reg {
  loading = false;
  errors =
      (
        "__all__",
        message_or e
            "\u{62e}\u{637}\u{627} \u{62f}\u{631} \u{62f}\u{631}\u{6cc}\u{627}\u{641}\u{62a} \u{627}\u{637}\u{644}\u{627}\u{639}\u{627}\u{62a}",
      )
      ∷ [];
}

unfoldable pub prefilled_po : String → Js → Result Js → Form → Form
prefilled_po role comp (ok res) reg = record reg {
  loading = false;
  can_register = truthy (get res "can_register");
  need_coach_code = needs_code role;
  locked = merge_locked_profiles reg.locked (normalize_locked_profile (get res "locked"));
  poomsae_type =
      or_else (get (get res "suggested") "poomsae_type") (or_else reg.poomsae_type (str ""));
  insurance_number = suggested res "insurance_number";
  insurance_issue_date = suggested res "insurance_issue_date";
}
prefilled_po role comp (err e) reg = record reg {
  loading = false;
  can_register = truthy (coalesce (reg_open_eff comp) (bool true));
  need_coach_code = needs_code role;
  locked = merge_locked_profiles reg.locked (locked_from_competition comp);
}

abbrev opening : Form → Form
opening reg = record reg { opened = true; loading = true; errors = [] }

abbrev is_kyorugi : Discipline → Bool
is_kyorugi kyorugi = true
is_kyorugi poomsae = false

abbrev no_card : CardInfo
no_card = record {
  loading = false;
  checked = true;
  enrollment_id = null;
  status = null;
  can_show = false;
}

abbrev card_of : Js → Js → CardInfo
card_of eid st = record {
  loading = false;
  checked = true;
  enrollment_id = eid;
  status = st;
  can_show = truthy eid;
}

unfoldable pub card_ky : Result Js → CardInfo
card_ky (ok res) =
    card_of (or_else (get res "enrollment_id") null) (or_else (get res "status") null)
card_ky (err e) = no_card

unfoldable pub card_po : Result Js → CardInfo
card_po (ok res) =
    let standard = get res "standard" in
    let creative = get res "creative" in
    card_of (or_else (get standard "enrollment_id") (or_else (get creative "enrollment_id") null))
      (or_else (get standard "status") (or_else (get creative "status") null))
card_po (err e) = no_card

abbrev modal : Bool → Js → Bool → String → CodeModal
modal loading code approved error = record {
  opened = true;
  loading = loading;
  code = code;
  approved = approved;
  error = error;
}

unfoldable pub code_status : Result Js → CodeModal
code_status (ok res) = modal false (or_else (get res "code") null) (truthy (get res "approved")) ""
code_status (err e) = modal false null false (message_or e "\u{62e}\u{637}\u{627}")

unfoldable pub code_approved : Result Js → CodeModal → CodeModal
code_approved (ok res) m = modal false (or_else (get res "code") null) true ""
code_approved (err e) m = record m {
  loading = false;
  error =
      message_or e
        "\u{62e}\u{637}\u{627} \u{62f}\u{631} \u{62f}\u{631}\u{6cc}\u{627}\u{641}\u{62a} \u{6a9}\u{62f}";
}

module _ (server : Server) (base : String) (slug : Js) (role : String) (clock : Clock) (comp : Js)
    (kind : Discipline) where
  -- openRegisterForm; the locked profile of the guard is `reg.locked || regP.locked`
  unfoldable pub open_register_form : View → World → View × World
  open_register_form view w =
      let (r, w') = get_register_self_prefill server base slug w in
      if is_kyorugi kind && can_click_self clock comp (or_else view.reg.locked view.reg_p.locked)
      then (record view { reg = prefilled_ky role r (opening view.reg) }, w')
      else (view, w)

  -- openRegisterFormPoomsae
  unfoldable pub open_register_form_poomsae : View → World → View × World
  open_register_form_poomsae view w =
      let (r, w') = build_poomsae_prefill server base slug w in
      if not (is_kyorugi kind)
        && can_click_self clock comp (or_else view.reg.locked view.reg_p.locked)
      then (record view { reg_p = prefilled_po role comp r (opening view.reg_p) }, w')
      else (view, w)

  -- the effect on [slug, competition, …] that sets cardInfo
  unfoldable pub look_up_card : View → World → View × World
  look_up_card view w =
      let (r, w') = get_my_enrollment server base slug w in
      let (q, w'') = get_my_poomsae_enrollments server base slug w in
      if not (is_player role) || not (truthy comp)
      then (record view { card = no_card }, w)
      else if is_kyorugi kind
      then (record view { card = card_ky r }, w')
      else (record view { card = card_po q }, w'')

  -- onOpenCoachCode
  unfoldable pub on_open_coach_code : View → World → View × World
  on_open_coach_code view w =
      let (r, w') =
        (if is_kyorugi kind
          then get_coach_approval_status server base slug w
          else get_poomsae_coach_approval_status server base slug w) in
      if text_or_empty (get_item w.storage "coach_token") == ""
        && text_or_empty (get_item w.storage "both_token") == ""
      then (
        go ("/dashboard/" <> encode_uri_component role) (
            say
              "\u{628}\u{631}\u{627}\u{6cc} \u{645}\u{634}\u{627}\u{647}\u{62f}\u{647} \u{6a9}\u{62f} \u{628}\u{627}\u{6cc}\u{62f} \u{628}\u{627} \u{62d}\u{633}\u{627}\u{628} \u{645}\u{631}\u{628}\u{6cc} \u{648}\u{627}\u{631}\u{62f} \u{634}\u{648}\u{6cc}\u{62f}."
              view),
        w,
      )
      else (record view { code_modal = code_status r }, w')

  -- approveAndGetCode
  unfoldable pub approve_and_get_code : View → World → View × World
  approve_and_get_code view w =
      let (r, w') =
        (if is_kyorugi kind
          then approve_competition server base slug w
          else approve_poomsae_competition server base slug w) in
      (
        record view {
          code_modal = code_approved r (record view.code_modal { loading = true; error = "" });
        },
        w',
      )
