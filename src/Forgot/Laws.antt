-- ===== src/Forgot/Laws.antt =====
-- The steps of a password reset, whatever is typed and whatever the server answers.
use tkd_chb.Base.{◌≡◌, ◌≢◌, refl, String, true, ◌&&◌, eqb, none, Bool-cases, inl, inr}
use tkd_chb.Base.Js.{Js, undefined, null, bool, nan, num, str, arr, obj, get, is_nullish}
use tkd_chb.Base.Exec.{Result, ok, err}
use tkd_chb.Base.Digits.{trimmed_digits}
use tkd_chb.Net.{Response, Server, World, is_ok}
use tkd_chb.Forgot.{
  Step, at_phone, at_code, at_result, State, is_phone, is_code, tick, failed, asked, code_sent,
  handle_send_code, verified, handle_verify, json_or_empty, server_text, send_failed,
}

-- What holds on a step: on that of the code and on the last one the phone number is valid, and the
-- last one has a result.
abbrev pub Ready : Step → State → Type 0
Ready at_phone s = true ≡ true
Ready at_code s = is_phone s.phone ≡ true
Ready at_result s = (is_phone s.phone ≡ true) × (s.result ≢ none)

abbrev pub IsGood : State → Type 0
IsGood s = Ready s.step s

-- One event of the form: typing on the step that shows the input, a second of the cooldown, sending
-- the code, or verifying it where it was asked for.
pub data Moves (server : Server) (url : String) : State → World → State → World → Type 0 where
  types_phone :
      {s : State} {w : World} (t : String)
      → s.step ≡ at_phone
      → Moves server url s w (record s { phone = t }) w
  types_code :
      {s : State} {w : World} (t : String) → Moves server url s w (record s { code_typed = t }) w
  ticks : {s : State} {w : World} → Moves server url s w (tick s) w
  sends :
      {s : State} {w : World}
      → Moves server url s w (handle_send_code server url s w).0 (handle_send_code server url s w).1
  verifies :
      {s : State} {w : World}
      → s.step ≡ at_code
      → Moves server url s w (handle_verify server url s w).0 (handle_verify server url s w).1

pub data Reaches (server : Server) (url : String) : State → World → State → World → Type 0 where
  done : {s : State} {w : World} → Reaches server url s w s w
  then_moves :
      {s s' s'' : State} {w w' w'' : World}
      → Reaches server url s w s' w'
      → Moves server url s' w' s'' w''
      → Reaches server url s w s'' w''

Ready-same :
    (st : Step) (s s' : State)
    → s'.phone ≡ s.phone
    → s'.result ≡ s.result
    → Ready st s
    → Ready st s'
Ready-same at_phone s s' p r h = refl
Ready-same at_code s s' p r h = rw p h
Ready-same at_result s s' p r h = (rw p h.0, rw r h.1)

code_sent-IsGood :
    (p : String) (r : Result Response) (s : State)
    → is_phone p ≡ true
    → IsGood s
    → IsGood (code_sent p r s)
unfolding code_sent
code_sent-IsGood p (err e) s valid h = Ready-same s.step s _ refl refl h
code_sent-IsGood p (ok res) s valid h = elim (Bool-cases (is_ok res.status)) [
  | inl good ↦ rw good valid
  | inr bad ↦
      rw bad (elim (Bool-cases (eqb res.status 429 && is_nullish (json_or_empty res.json))) [
        | inl empty ↦ rw empty (Ready-same s.step s _ refl refl h)
        | inr full ↦ rw full (kept (get (json_or_empty res.json) "retry_after"))
      ])
]
  where
    kept :
        (v : Js)
        → Ready
            (asked res.status v s).step
            (failed (server_text (json_or_empty res.json) send_failed) (asked res.status v s))
    kept (num n) = elim (Bool-cases (eqb res.status 429)) [
      | inl limited ↦ rw limited (Ready-same s.step s _ refl refl h)
      | inr other ↦ rw other (Ready-same s.step s _ refl refl h)
    ]
    kept undefined = Ready-same s.step s _ refl refl h
    kept null = Ready-same s.step s _ refl refl h
    kept (bool b) = Ready-same s.step s _ refl refl h
    kept nan = Ready-same s.step s _ refl refl h
    kept (str t) = Ready-same s.step s _ refl refl h
    kept (arr vs) = Ready-same s.step s _ refl refl h
    kept (obj fs) = Ready-same s.step s _ refl refl h

verified-IsGood :
    (r : Result Response) (s : State)
    → s.step ≡ at_code
    → is_phone s.phone ≡ true
    → IsGood (verified r s)
unfolding verified
verified-IsGood (err e) s at valid = rw at valid
verified-IsGood (ok res) s at valid = elim (Bool-cases (is_ok res.status)) [
  | inr bad ↦ rw (bad, at) valid
  | inl good ↦ elim (Bool-cases (is_nullish (json_or_empty res.json))) [
    | inl empty ↦ rw (good, empty, at) valid
    | inr full ↦ rw (good, full) (valid, λ e. cc)
  ]
]

Moves-IsGood :
    {server : Server} {url : String} {s : State} {w : World} {s' : State} {w' : World}
    → Moves server url s w s' w'
    → IsGood s
    → IsGood s'
unfolding tick handle_send_code handle_verify
Moves-IsGood (types_phone t at) good = rw at refl
Moves-IsGood {s = s} (types_code t) good = Ready-same s.step s _ refl refl good
Moves-IsGood {s = s} ticks good = Ready-same s.step s _ refl refl good
Moves-IsGood {server} {url} {s} {w = w} sends good =
    elim (Bool-cases (is_phone (trimmed_digits s.phone))) [
      | inl valid ↦ rw valid (
          code_sent-IsGood (trimmed_digits s.phone) _ (record s { error = ""; loading = true })
            valid (Ready-same s.step s _ refl refl good))
      | inr wrong ↦ rw wrong (Ready-same s.step s _ refl refl good)
    ]
Moves-IsGood {server} {url} {s} {w = w} (verifies at) good =
    elim (Bool-cases (is_phone (trimmed_digits s.phone))) [
      | inr wrong ↦ rw wrong (Ready-same s.step s _ refl refl good)
      | inl valid ↦ elim (Bool-cases (is_code (trimmed_digits s.code_typed))) [
        | inr bad ↦ rw (valid, bad) (Ready-same s.step s _ refl refl good)
        | inl fine ↦
            rw (valid, fine)
              (verified-IsGood _ (record s { error = ""; loading = true }) at (rw at at good))
      ]
    ]

-- From a state that is good, such as the first one, every run of events leads to a good state: on
-- the step of the code and on the last one the phone number is valid, and the last one has a result.
pub Reaches-IsGood :
    {server : Server} {url : String} {s s' : State} {w w' : World}
    → Reaches server url s w s' w'
    → IsGood s
    → IsGood s'
Reaches-IsGood done good = good
Reaches-IsGood (then_moves run move) good = Moves-IsGood move (Reaches-IsGood run good)
