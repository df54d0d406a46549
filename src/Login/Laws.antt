-- ===== src/Login/Laws.antt =====
-- What a login leaves in the storage, and what the guards and the API client then read.
use tkd_chb.Base.{
  ◌≡◌, ◌≢◌, ◌⊎◌, inl, inr, refl, String, ◌==◌, eq_iff, [], ◌∷◌, ◌++◌, Bool, true, false, not, ◌||◌,
  ltb, Option, none, some, if◌then◌else◌, Bool-cases,
}
use tkd_chb.Base.Text.{to_lower_case, trim, length_text}
use tkd_chb.Base.Text.Laws.{or_text_full}
use tkd_chb.Base.Digits.{login_digits}
use tkd_chb.Base.Js.{Js, str, is_nullish, to_text}
use tkd_chb.Base.Exec.{Result, ok, err}
use tkd_chb.Net.{Response, Server, World, is_ok, fetch}
use tkd_chb.Storage.{Storage, get_item, set_item, remove_item, get_item-set_item}
use tkd_chb.Session.{
  token_key, is_full, user_role, dashboard_open, text_or_empty, api_token, api_keys, first_item,
}
use tkd_chb.Login.{
  Modal, normalize_role, role_from_api, token_from_api, sign_in, is_allowed, answer, answered_login,
  submit, handle_login, refusal, login_request, login_error, other_form, is_valid_username,
  json_or_empty, null_read, next_path,
}

-- The roles that `normalizeRole` gives.
pub data Role : String → Type 0 where
  player : Role "player"
  coach : Role "coach"
  referee : Role "referee"
  both : Role "both"
  club : Role "club"
  heyat : Role "heyat"

module _ (t : String) (full : is_full t ≡ true) (s : Storage) where
  dashboard_open-Role : (r : String) → Role r → dashboard_open (sign_in r (str t) s) ≡ true
  unfolding dashboard_open sign_in text_or_empty user_role set_item get_item remove_item to_text
  dashboard_open-Role r player = rw full (rw full refl)
  dashboard_open-Role r coach = rw full (rw full refl)
  dashboard_open-Role r referee = rw full (rw full refl)
  dashboard_open-Role r both = rw full (rw full refl)
  dashboard_open-Role r club = rw full (rw full refl)
  dashboard_open-Role r heyat = rw full (rw full refl)

normalize_role-Role : (r : String) → Role (normalize_role r)
unfolding normalize_role
normalize_role-Role r = elim (Bool-cases (to_lower_case r == "coach")) [
  | inl e ↦ rw ((eq_iff (to_lower_case r) "coach").0 e) coach
  | inr not_coach ↦ elim (Bool-cases (to_lower_case r == "referee")) [
    | inl e ↦ rw ((eq_iff (to_lower_case r) "referee").0 e) referee
    | inr not_referee ↦ elim (Bool-cases (to_lower_case r == "both")) [
      | inl e ↦ rw ((eq_iff (to_lower_case r) "both").0 e) both
      | inr not_both ↦ rw (not_coach) (
          rw (not_referee) (
            rw not_both (
              or_other (to_lower_case r == "club")
                (to_lower_case r == "heyat" || (to_lower_case r == "hey'at" || false)))))
    ]
  ]
]
  where
    or_other : (x y : Bool) → Role (if x then "club" else if y then "heyat" else "player")
    or_other true y = club
    or_other false true = heyat
    or_other false false = player

-- After a login whose reply holds a token that is a text, the dashboard opens, whatever was stored
-- before and whatever role the reply names.
pub dashboard_open-sign_in :
    (v : Js) (t : String) (s : Storage)
    → token_from_api v ≡ str t
    → is_full t ≡ true
    → dashboard_open (sign_in (role_from_api v) (token_from_api v) s) ≡ true
unfolding role_from_api
dashboard_open-sign_in v t s e full = rw e (dashboard_open-Role t full s _ (normalize_role-Role _))

kept :
    (r t : String) (s : Storage)
    → is_full t ≡ true
    → (token_key r == "coach_token") ≡ false
    → get_item (sign_in r (str t) s) "coach_token" ≡ get_item s "coach_token"
unfolding sign_in to_text
kept r t s full other =
    rw
      (
        full,
        get_item-set_item "user_role" r "coach_token" (set_item (token_key r) t s),
        get_item-set_item (token_key r) t "coach_token" s,
        other,
      )
      refl

coach_token_kept :
    (r t : String) (s : Storage)
    → Role r
    → (r == "coach") ≡ false
    → is_full t ≡ true
    → get_item (sign_in r (str t) s) "coach_token" ≡ get_item s "coach_token"
unfolding sign_in to_text
coach_token_kept r t s player other full = kept "player" t s full refl
coach_token_kept r t s coach other full = cc
coach_token_kept r t s referee other full = kept "referee" t s full refl
coach_token_kept r t s both other full = kept "both" t s full refl
coach_token_kept r t s club other full = kept "club" t s full refl
coach_token_kept r t s heyat other full = kept "heyat" t s full refl

-- A coach's token that was left in the storage wins over the token of a later login in any other
-- role: the API client goes on with the old one.
pub api_token-sign_in_stale :
    (v : Js) (t u : String) (s : Storage)
    → token_from_api v ≡ str t
    → is_full t ≡ true
    → (role_from_api v == "coach") ≡ false
    → get_item s "coach_token" ≡ some u
    → is_full u ≡ true
    → api_token (sign_in (role_from_api v) (token_from_api v) s) ≡ some u
unfolding api_token first_item api_keys
api_token-sign_in_stale v t u s e full other stale old =
    let kept = coach_token_kept (role_from_api v) t s (role_known v) other full in
    rw (e, kept, stale) (rw old refl)
  where
    role_known : (v : Js) → Role (role_from_api v)
    role_known v = unfold role_from_api in normalize_role-Role _

-- One of the two outcomes of the login form for what the server said: the reply is good and has a
-- body, whose role the form allows; the form is closed, the role and the token of that body are stored
-- and the last navigation is the one to the dashboard of the role. Or the form stays, with a message,
-- the storage is as it was and nothing is navigated to.
abbrev pub Settled : String → Result Response → Modal → World → Modal → World → Type 0
Settled role r m w m' w' =
    (m'.loading ≡ false)
    × (((m'.closed ≡ true)
          × (res : Response) × (r ≡ ok res)
          × (is_ok res.status ≡ true)
          × (is_nullish (json_or_empty res.json) ≡ false)
          × (is_allowed role (role_from_api (json_or_empty res.json)) ≡ true)
          × (w'.storage
              ≡ sign_in (role_from_api (json_or_empty res.json))
                  (token_from_api (json_or_empty res.json)) w.storage)
          × (m'.went ≡ m.went ++ next_path (role_from_api (json_or_empty res.json)) ∷ []))
        ⊎ ((m'.closed ≡ m.closed)
            × (m'.error ≢ "")
            × (w'.storage ≡ w.storage)
            × (m'.went ≡ m.went)))

failed_text :
    (text : String)
    → (if text == ""
        then "\u{645}\u{634}\u{6a9}\u{644}\u{6cc} \u{67e}\u{6cc}\u{634} \u{622}\u{645}\u{62f}."
        else text)
      ≢ ""
failed_text text = or_text_full text _ (λ e. cc)

answer-Settled :
    (role : String) (res : Response) (m : Modal) (w : World)
    → Settled role
        (ok res)
        m
        w
        (answer role res.status (json_or_empty res.json) m w).0
        (answer role res.status (json_or_empty res.json) m w).1
unfolding answer
answer-Settled role res m w =
    let v = json_or_empty res.json in
    elim (Bool-cases (is_ok res.status)) [
      | inr bad ↦
          rw bad (refl, inr (refl, failed_text (to_text (login_error res.status v)), refl, refl))
      | inl good ↦ elim (Bool-cases (is_nullish v)) [
        | inl empty ↦ rw (good, empty) (refl, inr (refl, failed_text null_read, refl, refl))
        | inr full ↦ elim (Bool-cases (is_allowed role (role_from_api v))) [
          | inl fits ↦
              rw (good, full, fits) (refl, inl (refl, res, refl, good, full, fits, refl, refl))
          | inr alien ↦
              rw (good, full, alien) (refl, inr (refl, failed_text other_form, refl, refl))
        ]
      ]
    ]

answered_login-Settled :
    (role : String) (r : Result Response) (m : Modal) (w : World)
    → Settled role r m w (answered_login role r m w).0 (answered_login role r m w).1
unfolding answered_login
answered_login-Settled role (ok res) m w = answer-Settled role res m w
answered_login-Settled role (err e) m w = (refl, inr (refl, failed_text e.message, refl, refl))

one_of_three :
    (x y z text : String) (a b c : Bool)
    → x ≢ ""
    → y ≢ ""
    → z ≢ ""
    → (if a then some x else if b then some y else if c then some z else none) ≡ some text
    → text ≢ ""
one_of_three x y z text true b c p q r e = λ h. p (cc (e, h))
one_of_three x y z text false true c p q r e = λ h. q (cc (e, h))
one_of_three x y z text false false true p q r e = λ h. r (cc (e, h))
one_of_three x y z text false false false p q r e = cc

refusal_full : (u p text : String) → refusal u p ≡ some text → text ≢ ""
unfolding refusal
refusal_full u p text e =
    one_of_three _ _ _ text (u == "" || p == "") (not (is_valid_username u)) (ltb (length_text p) 6)
      (λ h. cc) (λ h. cc) (λ h. cc) e

-- What the server says to the request of the form.
abbrev pub login_reply : Server → String → String → Modal → World → Result Response
login_reply server url role m w =
    (fetch server (login_request url role (login_digits m.username) (trim m.password)) w).0

-- Whatever was typed, the login form that was not loading is not loading afterwards. It is closed only
-- by a good reply of the server with a body that is not null, whose role the form allows: then the role
-- and the token of that body are stored, and it navigates to the dashboard of the role. Otherwise it
-- stays, with a message, stores nothing and navigates nowhere.
pub handle_login-Settled :
    (server : Server) (url role : String) (m : Modal) (w : World)
    → m.loading ≡ false
    → Settled role
        (login_reply server url role m w)
        m
        w
        (handle_login server url role m w).0
        (handle_login server url role m w).1
unfolding handle_login
handle_login-Settled server url role m w idle =
    unless m.loading idle
      (submit server url role (refusal (login_digits m.username) (trim m.password)) m w)
      (outcome (refusal (login_digits m.username) (trim m.password))
        (λ text e. refusal_full _ _ text e))
  where
    unless :
        (b : Bool)
        → b ≡ false
        → (x : Modal × World) → Settled role (login_reply server url role m w) m w x.0 x.1
        → Settled role
            (login_reply server url role m w)
            m
            w
            (if b then (m, w) else x).0
            (if b then (m, w) else x).1
    unless true e x h = cc
    unless false e x h = h

    outcome :
        (o : Option String)
        → ((text : String) → o ≡ some text → text ≢ "")
        → Settled role
            (login_reply server url role m w)
            m
            w
            (submit server url role o m w).0
            (submit server url role o m w).1
    outcome none full =
        unfold submit in
        answered_login-Settled role (login_reply server url role m w)
          (record m { error = ""; loading = true })
          (fetch server (login_request url role (login_digits m.username) (trim m.password)) w).1
    outcome (some text) full = unfold submit in (idle, inr (refl, full text refl, refl, refl))
