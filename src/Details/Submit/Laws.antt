-- ===== src/Details/Submit/Laws.antt =====
-- What a submission leaves behind, whatever the server answers.
use tkd_chb.Base.{
  ◌≡◌, ◌≢◌, ◌⊎◌, inl, inr, refl, sym, eq_iff, ℕ, String, ◌==◌, true, false, Option, [], ◌∷◌, ◌++◌,
  Bool-cases,
}
use tkd_chb.Base.Js.{Js}
use tkd_chb.Base.Exec.{Failure, Result, ok, err}
use tkd_chb.Net.{Server, World}
use tkd_chb.Api.Endpoints.{register_self}
use tkd_chb.Details.Form.{Picker, Errors, validate_ky, jalali_input_to_iso}
use tkd_chb.Details.Submit.{
  View, submit_register, finish_ky, server_errors_ky, or_fallback, registered_ky, send_ky,
  checked_ky, bad_date, card_path, enrollment_of, is_paid, status_of, payload_ky,
}

or_fallback_full : (es : Errors) (text : String) → or_fallback es text ≢ []
or_fallback_full [] text = λ e. cc
or_fallback_full (x ∷ xs) text = λ e. cc

server_errors_ky_full : (e : Failure) → server_errors_ky e ≢ []
unfolding server_errors_ky
server_errors_ky_full e = or_fallback_full _ _

-- A form that stays open and is not loading, with the card and the page as they were.
pub record StaysOpen (view view' : View) : Type 0 where
  idle : view'.reg.loading ≡ false
  opened : view'.reg.opened ≡ true
  card : view'.card ≡ view.card
  went : view'.went ≡ view.went

-- A form that is closed by the reply `res`: the page moves to the card where it is paid, and a
-- message is shown where it is not.
pub record Closes (role : String) (res : Js) (view view' : View) : Type 0 where
  idle : view'.reg.loading ≡ false
  opened : view'.reg.opened ≡ false
  errors : view'.reg.errors ≡ []
  card : view'.card.can_show ≡ true
  status : view'.card.status ≡ status_of res "pending_payment"
  moves :
      ((is_paid (status_of res "pending_payment") ≡ true)
        × (view'.went ≡ view.went ++ card_path role (enrollment_of res) ∷ [])
        × (view'.alerts ≡ view.alerts))
      ⊎ ((is_paid (status_of res "pending_payment") ≡ false)
          × (view'.went ≡ view.went)
          × ((text : String) × (view'.alerts ≡ view.alerts ++ text ∷ [])))

registered_ky-Closes :
    (role : String) (res : Js) (view : View)
    → Closes role res view (
        registered_ky role res
          (record view { reg = record view.reg { loading = true; errors = [] } }))
unfolding registered_ky
registered_ky-Closes role res view = elim (Bool-cases (is_paid (status_of res "pending_payment"))) [
  | inl paid ↦ rw paid (record {
    idle = refl;
    opened = refl;
    errors = refl;
    card = refl;
    status = refl;
    moves = inl (paid, refl, refl);
  })
  | inr unpaid ↦ rw unpaid (record {
    idle = refl;
    opened = refl;
    errors = refl;
    card = refl;
    status = refl;
    moves = inr (unpaid, refl, (_, refl));
  })
]

module _ (server : Server) (base : String) (slug : Js) (role : String) (picker : Picker)
    (day : Option ℕ) where
  abbrev pub iso_of : View → String
  iso_of view = jalali_input_to_iso picker view.reg.insurance_issue_date

  -- What the server answers to the form, and the world after the request.
  abbrev pub reply_ky : View → World → Result Js × World
  reply_ky view w = register_self server base slug (payload_ky view.reg (iso_of view)) w

  -- The ends of a submission, each with its reason. A form that stays open has an entry in its
  -- errors, and the card and the page are as they were; the text of an entry is what the server
  -- gave, which is empty for an empty list.
  pub data Settled (view : View) (w : World) (view' : View) (w' : World) : Type 0 where
    held :
        validate_ky picker day view.reg ≢ []
        → view'.reg.errors ≡ validate_ky picker day view.reg
        → StaysOpen view view'
        → w' ≡ w
        → Settled view w view' w'
    undated :
        validate_ky picker day view.reg ≡ []
        → iso_of view ≡ ""
        → view'.reg.errors ≡ bad_date
        → StaysOpen view view'
        → w' ≡ w
        → Settled view w view' w'
    refused :
        (e : Failure)
        → validate_ky picker day view.reg ≡ []
        → (reply_ky view w).0 ≡ err e
        → view'.reg.errors ≢ []
        → StaysOpen view view'
        → w' ≡ (reply_ky view w).1
        → Settled view w view' w'
    registered :
        (res : Js)
        → validate_ky picker day view.reg ≡ []
        → (reply_ky view w).0 ≡ ok res
        → Closes role res view view'
        → w' ≡ (reply_ky view w).1
        → Settled view w view' w'

  abbrev busy : View → View
  busy view = record view { reg = record view.reg { loading = true; errors = [] } }

  finish_ky-Settled :
      (r : Result Js) (view : View) (w : World)
      → (reply_ky view w).0 ≡ r
      → validate_ky picker day view.reg ≡ []
      → view.reg.opened ≡ true
      → Settled view w (finish_ky role r (busy view)) (reply_ky view w).1
  finish_ky-Settled (ok res) view w same valid on =
      registered res valid same (registered_ky-Closes role res view) refl
  finish_ky-Settled (err e) view w same valid on =
      refused e valid same (server_errors_ky_full e)
        (record { idle = refl; opened = on; card = refl; went = refl }) refl

  checked_ky-Settled :
      (es : Errors) (view : View) (w : World)
      → validate_ky picker day view.reg ≡ es
      → view.reg.opened ≡ true
      → view.reg.loading ≡ false
      → Settled view w
          (checked_ky server base slug role picker day es view w).0
          (checked_ky server base slug role picker day es view w).1
  unfolding checked_ky send_ky
  checked_ky-Settled (x ∷ xs) view w same on idle =
      held (λ none_left. cc) (sym same)
        (record { idle = idle; opened = on; card = refl; went = refl }) refl
  checked_ky-Settled [] view w same on idle = elim (Bool-cases (iso_of view == "")) [
    | inl bad ↦ rw bad (
        undated same ((eq_iff (iso_of view) "").0 bad) refl
          (record { idle = refl; opened = on; card = refl; went = refl }) refl)
    | inr good ↦ rw good (finish_ky-Settled (reply_ky view w).0 view w refl same on)
  ]

  -- Submitting an open form of kyorugi that is not loading leaves it not loading, in one of four
  -- ways. Where the validation has errors, or the date of the insurance is no date, nothing is
  -- sent, and the form stays open with these errors. Where the server refuses the form, it stays
  -- open with some entry in its errors. Where the server takes it, the form is closed with no
  -- error, the card is to be seen with the status of the reply, and the page moves to the card
  -- exactly where that status is paid or confirmed. The card and the page change in no other case.
  pub submit_register-Settled :
      (view : View) (w : World)
      → view.reg.opened ≡ true
      → view.reg.loading ≡ false
      → Settled view w
          (submit_register server base slug role picker day view w).0
          (submit_register server base slug role picker day view w).1
  unfolding submit_register
  submit_register-Settled view w on idle =
      checked_ky-Settled (validate_ky picker day view.reg) view w refl on idle

  -- A form of kyorugi that does not pass the validation is not sent: no request goes out.
  pub submit_register-invalid :
      (view : View) (w : World)
      → validate_ky picker day view.reg ≢ []
      → ((submit_register server base slug role picker day view w).1 ≡ w)
        × ((submit_register server base slug role picker day view w).0.reg.errors
            ≡ validate_ky picker day view.reg)
  unfolding submit_register checked_ky
  submit_register-invalid view w wrong = held (validate_ky picker day view.reg) wrong
    where
      held :
          (es : Errors)
          → es ≢ []
          → ((checked_ky server base slug role picker day es view w).1 ≡ w)
            × ((checked_ky server base slug role picker day es view w).0.reg.errors ≡ es)
      held [] full = absurd (full refl)
      held (x ∷ xs) full = (refl, refl)
