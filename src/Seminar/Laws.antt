-- ===== src/Seminar/Laws.antt =====
-- The registration for a seminar: who can send it, and what the page shows afterwards.
use tkd_chb.Base.{
  ◌≡◌, inl, inr, refl, String, ◌==◌, Bool, true, false, not, ◌&&◌, ◌||◌, Option, none, some, List,
  [], ◌∷◌, any, map, eqb, if◌then◌else◌, arith, Bool-cases,
}
use tkd_chb.Base.Js.{is_text, Js, str, array, truthy, get}
use tkd_chb.Storage.{Storage}
use tkd_chb.Net.{World}
use tkd_chb.Axios.{Rejection, Answer, resolved, rejected, Axios}
use tkd_chb.Seminar.{
  Detail, role_array_from_role, seminar_role, seminar_token, allows, roles_of, no_items, no_roles,
  can_register_by_role, registration_request, refused_registration, registration_sent,
  on_confirm_and_pay, detail_of, is_double,
}

any-no_roles :
    (p : String → Bool) (roles : List String) → any p roles ≡ true → no_roles roles ≡ false
any-no_roles p [] h = absurd (ground arith)
any-no_roles p (r ∷ rs) h = refl

truthy_seminar :
    (seminar : Js) (role : String)
    → can_register_by_role seminar role ≡ true
    → truthy seminar ≡ true
unfolding can_register_by_role
truthy_seminar seminar role h = ground arith

roles_allowed :
    (seminar : Js) (role : String)
    → can_register_by_role seminar role ≡ true
    → no_items (roles_of seminar) ≡ false
    → any (λ r. allows (roles_of seminar) r) (role_array_from_role role) ≡ true
unfolding can_register_by_role
roles_allowed seminar role h listed = ground arith

-- A refusal with the status 400 or 409.
abbrev pub is_conflict : Rejection → Bool
is_conflict e = eqb e.status 400 || eqb e.status 409

abbrev pub detail_sent : Rejection → Js
detail_sent e = get e.data_sent "detail"

-- A refusal whose detail is to be seen by the person, be it as it is or as that of a second
-- registration.
abbrev pub is_told : Option Rejection → Bool
is_told none = false
is_told (some e) = is_conflict e && (truthy (detail_sent e) || is_double (detail_of e.data_sent))

-- What becomes of a request that was sent, by its answer.
pub data ShowsAnswer (r : Answer) (d d' : Detail) : Type 0 where
  taken :
      (v : Js)
      → r ≡ resolved v
      → d'.already_registered ≡ true
      → d'.show_confirm ≡ false
      → d'.error ≡ str ""
      → ShowsAnswer r d d'
  doubled :
      (e : Rejection)
      → r ≡ rejected (some e)
      → is_conflict e ≡ true
      → is_double (detail_of e.data_sent) ≡ true
      → d'.already_registered ≡ true
      → truthy d'.error ≡ true
      → ShowsAnswer r d d'
  told :
      (e : Rejection)
      → r ≡ rejected (some e)
      → is_conflict e ≡ true
      → is_double (detail_of e.data_sent) ≡ false
      → truthy (detail_sent e) ≡ true
      → d'.error ≡ detail_sent e
      → d'.already_registered ≡ d.already_registered
      → ShowsAnswer r d d'
  failed :
      (e : Option Rejection)
      → r ≡ rejected e
      → is_told e ≡ false
      → truthy d'.error ≡ true
      → d'.already_registered ≡ d.already_registered
      → ShowsAnswer r d d'

-- An outcome: nothing was sent, and an error is set, or the answer to the request is shown.
pub data ShowsOutcome (x : Answer × World) (d : Detail) (w : World) (d' : Detail) (w' : World)
    : Type 0 where
  unsent :
      w' ≡ w
      → truthy d'.error ≡ true
      → d'.already_registered ≡ d.already_registered
      → ShowsOutcome x d w d' w'
  answered : w' ≡ x.1 → d'.registering ≡ false → ShowsAnswer x.0 d d' → ShowsOutcome x d w d' w'

-- the flag of a request on its way is not part of what is shown
shows_free :
    {r : Answer} {d d' : Detail}
    → ShowsAnswer r d d'
    → ShowsAnswer r d (record d' { registering = false })
shows_free (taken v a b c e) = taken v a b c e
shows_free (doubled e a b c f g) = doubled e a b c f g
shows_free (told e a b c f g h) = told e a b c f g h
shows_free (failed e a b c f) = failed e a b c f

from_cleared :
    {r : Answer} {d d' : Detail}
    → ShowsAnswer r (record d { registering = true; error = str ""; success_msg = "" }) d'
    → ShowsAnswer r d d'
from_cleared (taken v a b c e) = taken v a b c e
from_cleared (doubled e a b c f g) = doubled e a b c f g
from_cleared (told e a b c f g h) = told e a b c f g h
from_cleared (failed e a b c f) = failed e a b c f

refused-ShowsAnswer :
    (o : Option Rejection) (d : Detail) → ShowsAnswer (rejected o) d (refused_registration o d)
unfolding refused_registration
refused-ShowsAnswer none d = failed none refl refl refl refl
refused-ShowsAnswer (some e) d = elim (Bool-cases (is_conflict e)) [
  | inr other ↦ elim (Bool-cases (eqb e.status 401)) [
    | inl out ↦ rw (other, out) (failed (some e) refl (rw other refl) refl refl)
    | inr odd ↦ rw (other, odd) (failed (some e) refl (rw other refl) refl refl)
  ]
  | inl conflict ↦ elim (Bool-cases (is_double (detail_of e.data_sent))) [
    | inl twice ↦ rw (conflict, twice) (doubled e refl conflict twice refl refl)
    | inr once ↦ elim (Bool-cases (truthy (detail_sent e))) [
      | inl full ↦
          rw (conflict, once) (told e refl conflict once full (rw full (rw full refl)) refl)
      | inr blank ↦
          rw (conflict, once)
            (failed (some e) refl (rw (conflict, once, blank) refl) (rw blank refl) refl)
    ]
  ]
]

sent-ShowsAnswer :
    (r : Answer) (d : Detail) → d.error ≡ str "" → ShowsAnswer r d (registration_sent r d)
unfolding registration_sent
sent-ShowsAnswer (resolved v) d clear = elim (Bool-cases (is_text (get v "status") "ok")) [
  | inl good ↦ rw good (taken v refl refl refl clear)
  | inr odd ↦ rw odd (taken v refl refl refl clear)
]
sent-ShowsAnswer (rejected e) d clear = refused-ShowsAnswer e d

-- The roles of a registration: one, but for the person who is coach and referee.
abbrev pub sent_roles : String → Js
sent_roles role =
    if role == "both" then array (str "coach" ∷ str "referee" ∷ []) else array (str role ∷ [])

single_kept :
    (b : Bool) (role : String)
    → no_roles (if b then role ∷ [] else []) ≡ false
    → array (map str (if b then role ∷ [] else [])) ≡ array (str role ∷ [])
single_kept true role h = refl
single_kept false role h = absurd (ground arith)

roles_sent :
    (role : String)
    → no_roles (role_array_from_role role) ≡ false
    → array (map str (role_array_from_role role)) ≡ sent_roles role
unfolding role_array_from_role
roles_sent role h = elim (Bool-cases (role == "both")) [
  | inl two ↦ rw two refl
  | inr one ↦ rw one (single_kept _ role (rw one at h))
]

module _ (axios : Axios) (base slug : String) (s : Storage) where
  -- A person with a token whom the page of a seminar with a list of roles lets register sends
  -- exactly one post, with the own role, or the two roles of a person who is coach and referee; the
  -- button is free again afterwards.
  pub on_confirm_and_pay-can_register :
      (d : Detail) (w : World)
      → can_register_by_role d.seminar (seminar_role s) ≡ true
      → no_items (roles_of d.seminar) ≡ false
      → (seminar_token s == "") ≡ false
      → ((on_confirm_and_pay axios base slug s d w).1
          ≡ (axios (registration_request base slug s) w).1)
        × ((registration_request base slug s).method ≡ "POST")
        × (get (registration_request base slug s).body "roles" ≡ sent_roles (seminar_role s))
        × ((on_confirm_and_pay axios base slug s d w).0.registering ≡ false)
  unfolding on_confirm_and_pay registration_request
  on_confirm_and_pay-can_register d w can listed token =
      let allowed = roles_allowed d.seminar (seminar_role s) can listed in
      let some_roles =
        any-no_roles (λ r. allows (roles_of d.seminar) r) (role_array_from_role (seminar_role s))
          allowed in
      let here = truthy_seminar d.seminar (seminar_role s) can in
      (
        rw (here, token, some_roles) refl,
        refl,
        roles_sent (seminar_role s) some_roles,
        rw (here, token, some_roles) refl,
      )

  -- Confirming the registration, whatever the role and the answer: either nothing is sent and an
  -- error is set, or one request is answered and the button is free again. An answer that is no
  -- refusal counts the person as registered and closes the question with no error; a refusal with 400
  -- or 409 counts them as registered where its detail names a double, and else sets the detail as the
  -- error where there is one; any other refusal sets some error and leaves the registration as it was.
  pub on_confirm_and_pay-ShowsOutcome :
      (d : Detail) (w : World)
      → ShowsOutcome
          (axios (registration_request base slug s) w)
          d
          w
          (on_confirm_and_pay axios base slug s d w).0
          (on_confirm_and_pay axios base slug s d w).1
  unfolding on_confirm_and_pay
  on_confirm_and_pay-ShowsOutcome d w =
      elim (Bool-cases (not (truthy d.seminar) || seminar_token s == "")) [
        | inl held ↦ rw held (unsent refl refl refl)
        | inr free ↦ elim (Bool-cases (no_roles (role_array_from_role (seminar_role s)))) [
          | inl barred ↦ rw (free, barred) (unsent refl refl refl)
          | inr let_in ↦
              rw (free, let_in)
                (answered refl refl (
                  from_cleared (
                    shows_free (
                      sent-ShowsAnswer _
                        (record d { registering = true; error = str ""; success_msg = "" }) refl))))
        ]
      ]
