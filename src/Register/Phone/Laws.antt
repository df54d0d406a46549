-- ===== src/Register/Phone/Laws.antt =====
-- What is sent while a phone is verified.

use mathlib.Core.List.{append_assoc, append-nil}
use tkd_chb.Base.{
  ◌≡◌, refl, ◌∙◌, sym, ℕ, ◌-◌, String, Bool, true, false, not, ◌||◌, Option, none, some, List, [],
  ◌∷◌, ◌++◌, ◌+◌, ◌&&◌, ltb, eqb, if◌then◌else◌, arith, Bool-cases, inl, inr, All,
}
use tkd_chb.Base.Text.{length_text, every_char, join}
use tkd_chb.Base.Js.{Js, str, get, truthy, is_nullish}
use tkd_chb.Base.Exec.{Result, ok, err}
use tkd_chb.Net.{Request, Response, World, is_ok}
use tkd_chb.Students.Ids.{number_of}
use tkd_chb.Forgot.{is_phone, is_code}
use tkd_chb.Register.Phone.{
  Screen, at_phone, at_code, Signup, empty_code, initial_signup, settle_at, settle, tick_at, tick,
  waiting, phone_replied, phone_answered, phone_sent, send_url, verify_url, send_request,
  verify_request, send_phone, resend_code, code_replied, code_answered, code_verified, verify_code,
  is_digit_or_empty, is_full, typed, handle_code_change,
}
use tkd_chb.Register.Phone.Typed.{IsTyped, IsTyped-is_code, set_at-length, set_at-digits}

abbrev pub plain_text : Js → String
plain_text (str s) = s
plain_text _ = ""

abbrev pub post_text : Request → String → String
post_text r k = plain_text (get r.body k)

-- What may be sent: a code is asked for a valid phone, and what is checked has four digits, with a
-- phone that is valid unless a hasty person is let to type.
pub data IsAsked (hasty : Bool) (r : Request) : Type 0 where
  sends : r.url ≡ send_url → is_phone (post_text r "phone") ≡ true → IsAsked hasty r
  verifies :
      r.url ≡ verify_url
      → is_code (post_text r "code") ≡ true
      → (hasty || is_phone (post_text r "phone")) ≡ true
      → IsAsked hasty r

abbrev pub is_code_step : Screen → Bool
is_code_step at_phone = false
is_code_step at_code = true

-- The window with what is on its way: how many replies to send-code are awaited, and the phones
-- whose codes are being checked.
pub record Window : Type 0 where
  pub signup : Signup
  pub sending : ℕ
  pub checking : List String
  pub world : World

-- What a handler leaves, with the request that it sends.
abbrev pub sent_on : Option Request → World → World
sent_on none w = w
sent_on (some r) w = record w { sent = w.sent ++ r ∷ [] }

abbrev pub one_more : Option Request → ℕ → ℕ
one_more none n = n
one_more (some r) n = n + 1

abbrev pub checked_too : Option Request → String → List String → List String
checked_too none phone phones = phones
checked_too (some r) phone phones = phone ∷ phones

unfoldable pub code_asked : Signup × Option Request → Window → Window
code_asked x w = record w {
  signup = x.0;
  sending = one_more x.1 w.sending;
  world = sent_on x.1 w.world;
}

unfoldable pub code_changed : Signup × Option Request → Window → Window
code_changed x w = record w {
  signup = x.0;
  checking = checked_too x.1 x.0.phone w.checking;
  world = sent_on x.1 w.world;
}

-- What a change leaves as it was.
record Same (s s' : Signup) : Type 0 where
  step : s'.step ≡ s.step
  phone : s'.phone ≡ s.phone
  code : s'.code ≡ s.code

settle_at-Same : (t : Option ℕ) (s : Signup) → Same s (settle_at t s)
settle_at-Same none s = record { step = refl; phone = refl; code = refl }
settle_at-Same (some n) s = record {
  step = ground arith;
  phone = ground arith;
  code = ground arith;
}

settle-Same : (s : Signup) → Same s (settle s)
unfolding settle
settle-Same s = settle_at-Same s.timer s

tick_at-Same : (t : Option ℕ) (s : Signup) → Same s (tick_at t s)
tick_at-Same none s = record { step = refl; phone = refl; code = refl }
tick_at-Same (some n) s =
    let same = settle-Same (record s { timer = some (n - 1) }) in
    record {
      step = ground (arith, same.step);
      phone = ground (arith, same.phone);
      code = ground (arith, same.code);
    }

tick-Same : (s : Signup) → Same s (tick s)
unfolding tick
tick-Same s = tick_at-Same s.timer s

-- What a reply to send-code leaves as it was.
record Keeps (s s' : Signup) : Type 0 where
  phone : s'.phone ≡ s.phone
  code : s'.code ≡ s.code

waiting-Keeps : (n : Option ℕ) (s : Signup) → Keeps s (waiting n s)
waiting-Keeps n s =
    let same = settle-Same (record s { step = at_code; timer = n; cooldown_active = true }) in
    record { phone = same.phone; code = same.code }

phone_replied-Keeps : (status : ℕ) (v : Js) (s : Signup) → Keeps s (phone_replied status v s)
unfolding phone_replied
phone_replied-Keeps status v s = elim (Bool-cases (is_ok status)) [
  | inl fine ↦ rw fine (waiting-Keeps (some 180) s)
  | inr bad ↦ rw bad (elim (Bool-cases (is_nullish v)) [
    | inl empty ↦ rw empty (record { phone = refl; code = refl })
    | inr full ↦ rw full (elim (Bool-cases (truthy (get v "retry_after"))) [
      | inl later ↦
          let kept = waiting-Keeps (number_of (get v "retry_after")) s in
          rw later (record { phone = kept.phone; code = kept.code })
      | inr now ↦ rw now (record { phone = refl; code = refl })
    ])
  ])
]

phone_sent-Keeps : (r : Result Response) (s : Signup) → Keeps s (phone_sent r s)
unfolding phone_sent
phone_sent-Keeps (err e) s = record { phone = refl; code = refl }
phone_sent-Keeps (ok res) s = answered res.json
  where
    answered : (v : Option Js) → Keeps s (phone_answered res.status v s)
    answered none = record { phone = refl; code = refl }
    answered (some v) = phone_replied-Keeps res.status v s

empty_code-IsTyped : IsTyped empty_code
unfolding is_digit_or_empty length_text every_char
empty_code-IsTyped = (refl, refl)

module _ (hasty : Bool) where
  -- The requests since a world, all of which may be sent.
  abbrev pub OnlyAsked : World → World → Type 0
  OnlyAsked w w' = (asked : List Request) × (w'.sent ≡ w.sent ++ asked) × All (IsAsked hasty) asked

  snoc-IsAsked :
      (asked : List Request) (r : Request)
      → All (IsAsked hasty) asked
      → IsAsked hasty r
      → All (IsAsked hasty) (asked ++ r ∷ [])
  snoc-IsAsked [] r h i = (i, tt)
  snoc-IsAsked (a ∷ asked) r (here, later) i = (here, snoc-IsAsked asked r later i)

  OnlyAsked-more :
      (w0 w : World) (r : Request)
      → OnlyAsked w0 w
      → IsAsked hasty r
      → OnlyAsked w0 (record w { sent = w.sent ++ r ∷ [] })
  OnlyAsked-more w0 w r (asked, same, all) i =
      (asked ++ r ∷ [], rw same (append_assoc w0.sent asked (r ∷ [])), snoc-IsAsked asked r all i)

  -- The inputs of the code are typed, and the phone is valid on the step of the code, and while a
  -- reply to send-code is awaited, unless a hasty person is let to type.
  pub record IsSound (w0 : World) (w : Window) : Type 0 where
    pub inputs : IsTyped w.signup.code
    pub valid :
        (not (is_code_step w.signup.step) && eqb w.sending 0 || hasty || is_phone w.signup.phone)
        ≡ true
    pub asked : OnlyAsked w0 w.world

  -- A change of the form alone.
  Same-IsSound :
      {w0 : World} (w : Window) (s : Signup)
      → Same w.signup s
      → IsSound w0 w
      → IsSound w0 (record w { signup = s })
  Same-IsSound w s same good = record {
    inputs = rw same.code good.inputs;
    valid = rw (same.step, same.phone) good.valid;
    asked = good.asked;
  }

  send_phone-IsSound :
      {w0 : World} (role : String) (w : Window)
      → IsSound w0 w
      → IsSound w0 (code_asked (send_phone role w.signup) w)
  unfolding send_phone code_asked
  send_phone-IsSound {w0} role w good = elim (Bool-cases (is_phone w.signup.phone)) [
    | inr wrong ↦
        rw wrong (Same-IsSound w _ (record { step = refl; phone = refl; code = refl }) good)
    | inl fine ↦ rw fine (elim (Bool-cases w.signup.cooldown_active) [
      | inl active ↦
          rw active (Same-IsSound w _ (record { step = refl; phone = refl; code = refl }) good)
      | inr free ↦ rw free (record {
        inputs = good.inputs;
        valid = ground arith;
        asked =
            OnlyAsked-more w0 w.world (send_request role w.signup.phone) good.asked
              (sends refl fine);
      })
    ])
  ]

  if-IsSound :
      {w0 : World} (w : Window) (b : Bool) (p q : Signup × Option Request)
      → (b ≡ true → IsSound w0 (code_asked p w))
      → (b ≡ false → IsSound w0 (code_asked q w))
      → IsSound w0 (code_asked (if b then p else q) w)
  if-IsSound w true p q h k = h refl
  if-IsSound w false p q h k = k refl

  resend_code-IsSound :
      {w0 : World} (role : String) (w : Window)
      → IsSound w0 w
      → IsSound w0 (code_asked (resend_code role w.signup) w)
  unfolding resend_code code_asked
  resend_code-IsSound role w good =
      if-IsSound w w.signup.cooldown_active _ _
        (λ active. Same-IsSound w _ (record { step = refl; phone = refl; code = refl }) good)
        (λ free. send_phone-IsSound role w good)

  phone_sent-IsSound :
      {w0 : World} (r : Result Response) (w : Window)
      → ltb 0 w.sending ≡ true
      → IsSound w0 w
      → IsSound w0 (record w { signup = phone_sent r w.signup; sending = w.sending - 1 })
  phone_sent-IsSound r w awaited good =
      let kept = phone_sent-Keeps r w.signup in
      let valid : (hasty || is_phone w.signup.phone) ≡ true = ground (arith, good.valid, awaited) in
      record {
        inputs = rw kept.code good.inputs;
        valid = rw kept.phone (ground (arith, valid));
        asked = good.asked;
      }

  code_verified-IsSound :
      {w0 : World} (role phone : String) (phones : List String) (r : Result Response) (w : Window)
      → IsSound w0 w
      → IsSound w0 (record w {
        signup = (code_verified role phone r w.signup w.world).0;
        checking = phones;
        world = (code_verified role phone r w.signup w.world).2;
      })
  unfolding code_verified code_replied
  code_verified-IsSound role phone phones (err e) w good = record {
    inputs = good.inputs;
    valid = good.valid;
    asked = good.asked;
  }
  code_verified-IsSound {w0} role phone phones (ok res) w good = answered res.json
    where
      answered :
          (v : Option Js)
          → IsSound w0 (record w {
            signup = (code_answered role phone v w.signup w.world).0;
            checking = phones;
            world = (code_answered role phone v w.signup w.world).2;
          })
      answered none = record { inputs = good.inputs; valid = good.valid; asked = good.asked }
      answered (some v) = elim (Bool-cases (is_nullish v)) [
        | inl empty ↦
            rw empty (record { inputs = good.inputs; valid = good.valid; asked = good.asked })
        | inr full ↦ rw full (elim (Bool-cases (truthy (get v "message"))) [
          | inl right ↦
              rw right (record { inputs = good.inputs; valid = good.valid; asked = good.asked })
          | inr wrong ↦
              rw wrong
                (record { inputs = empty_code-IsTyped; valid = good.valid; asked = good.asked })
        ])
      ]

  handle_code_change-IsSound :
      {w0 : World} (value : String) (n : ℕ) (w : Window)
      → w.signup.step ≡ at_code
      → IsSound w0 w
      → IsSound w0 (code_changed (handle_code_change value n w.signup) w)
  unfolding handle_code_change verify_code code_changed
  handle_code_change-IsSound {w0} value n w at good = elim (Bool-cases (is_digit_or_empty value)) [
    | inr other ↦ rw other (record { inputs = good.inputs; valid = good.valid; asked = good.asked })
    | inl digit ↦
        let s' = typed value n w.signup in
        let inputs : IsTyped s'.code = (
          set_at-length n value w.signup.code ∙ good.inputs.0,
          set_at-digits n value w.signup.code digit good.inputs.1,
        ) in
        let valid : (hasty || is_phone w.signup.phone) ≡ true =
          ground (arith, rw at at good.valid) in
        rw digit (elim (Bool-cases (is_full s'.code)) [
          | inr left ↦ rw left (record { inputs = inputs; valid = good.valid; asked = good.asked })
          | inl full ↦ rw full (record {
            inputs = inputs;
            valid = good.valid;
            asked =
                OnlyAsked-more w0 w.world (verify_request w.signup.phone (join "" s'.code))
                  good.asked (verifies refl (IsTyped-is_code s'.code inputs full) valid);
          })
        ])
  ]

module _ (hasty : Bool) (role : String) (w0 : World) where
  -- What a person can do, a second of a cooldown, and the replies, each of which comes at any time
  -- after its request, in any order; an input is shown on its own step only. A person who is not
  -- hasty leaves the phone as it is while a reply to send-code is awaited.
  pub data Reaches : Window → Type 0 where
    begin : Reaches (record { signup = initial_signup; sending = 0; checking = []; world = w0 })
    types_phone :
        {w : Window} (t : String)
        → w.signup.step ≡ at_phone
        → (hasty || eqb w.sending 0) ≡ true
        → Reaches w
        → Reaches (record w { signup = record (w.signup) { phone = t } })
    types_code :
        {w : Window} (value : String) (n : ℕ)
        → w.signup.step ≡ at_code
        → Reaches w
        → Reaches (code_changed (handle_code_change value n w.signup) w)
    waits : {w : Window} → Reaches w → Reaches (record w { signup = tick w.signup })
    sends_phone : {w : Window} → Reaches w → Reaches (code_asked (send_phone role w.signup) w)
    resends : {w : Window} → Reaches w → Reaches (code_asked (resend_code role w.signup) w)
    phone_arrives :
        {w : Window} (r : Result Response)
        → ltb 0 w.sending ≡ true
        → Reaches w
        → Reaches (record w { signup = phone_sent r w.signup; sending = w.sending - 1 })
    code_arrives :
        {w : Window} (earlier later : List String) (phone : String) (r : Result Response)
        → w.checking ≡ later ++ phone ∷ earlier
        → Reaches w
        → Reaches (record w {
          signup = (code_verified role phone r w.signup w.world).0;
          checking = later ++ earlier;
          world = (code_verified role phone r w.signup w.world).2;
        })

  -- However a person types and sends, and whatever the server answers and when, a code is asked for
  -- a valid phone only, and what is sent to be checked has four digits; its phone is valid too where
  -- no phone is typed while a reply to send-code is awaited. Each input of the code is empty or a
  -- digit.
  pub Reaches-IsSound : {w : Window} → Reaches w → IsSound hasty w0 w
  unfolding initial_signup
  Reaches-IsSound begin = record {
    inputs = empty_code-IsTyped;
    valid = refl;
    asked = ([], sym (append-nil w0.sent), tt);
  }
  Reaches-IsSound (types_phone {w} t at calm run) =
      let good = Reaches-IsSound run in
      record { inputs = good.inputs; valid = rw at (ground (arith, calm)); asked = good.asked }
  Reaches-IsSound (types_code {w} value n at run) =
      handle_code_change-IsSound hasty value n w at (Reaches-IsSound run)
  Reaches-IsSound (waits {w} run) =
      Same-IsSound hasty w _ (tick-Same w.signup) (Reaches-IsSound run)
  Reaches-IsSound (sends_phone {w} run) = send_phone-IsSound hasty role w (Reaches-IsSound run)
  Reaches-IsSound (resends {w} run) = resend_code-IsSound hasty role w (Reaches-IsSound run)
  Reaches-IsSound (phone_arrives {w} r awaited run) =
      phone_sent-IsSound hasty r w awaited (Reaches-IsSound run)
  Reaches-IsSound (code_arrives {w} earlier later phone r same run) =
      code_verified-IsSound hasty role phone (later ++ earlier) r w (Reaches-IsSound run)
