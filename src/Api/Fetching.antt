-- ===== src/Api/Fetching.antt =====
-- `safeFetch`: what it makes of a response.
use Prim.Native.String.{count}
use text.Mathlib.TextLemmas.{length-append}
use tkd_chb.Base.{
  ◌≡◌, refl, ap, eq_iff, [], arith, ℕ, String, ◌==◌, true, false, ◌||◌, none, some, eqb,
  if◌then◌else◌, Bool-cases, inl, inr,
}
use tkd_chb.Base.Js.{Js, null, truthy, get, to_text}
use tkd_chb.Base.Exec.{Failure, ok, err}
use tkd_chb.Net.{Response, is_ok}
use tkd_chb.Base.Text.{show_number}
use tkd_chb.Api.Client.{
  settled, http_text, data_of, http_failure, message_value, joined, field_errors, with_status_text,
}

-- A reply with a good status never fails, and gives its parsed body: null for the statuses 204 and
-- 205 and for a body that is no JSON, whatever text that body holds.
pub settled_of_ok :
    (res : Response)
    → is_ok res.status ≡ true
    → settled res ≡ ok (if eqb res.status 204 || eqb res.status 205 then null else data_of res.json)
unfolding settled data_of
settled_of_ok res good = ground arith

-- No source of a message in the body.
pub record IsSilent (v : Js) : Type 0 where
  pub detail : truthy (get v "detail") ≡ false
  pub non_field : truthy (joined (get v "non_field_errors")) ≡ false
  pub all : truthy (joined (get v "__all__")) ≡ false
  pub errors : truthy (field_errors (get v "errors")) ≡ false
  pub message : truthy (get v "message") ≡ false
  pub error : truthy (get v "error") ≡ false

http_text-is_full : (n : ℕ) → (http_text n == "") ≡ false
http_text-is_full n = elim (Bool-cases (http_text n == "")) [
  | inl e ↦
      absurd (omega (arith, ap count ((eq_iff _ _).0 e), length-append "HTTP " (show_number n)))
  | inr e ↦ e
]

abbrev pub error_of : Response → String → Failure
error_of res m = record {
  message = m;
  code = none;
  status = some res.status;
  payload = data_of res.json;
  tried = [];
}

-- A reply with a bad status whose body names no message fails with the message `HTTP <status>`, the
-- status and the parsed body, whatever its status text.
pub settled_silent :
    (res : Response)
    → is_ok res.status ≡ false
    → IsSilent (data_of res.json)
    → settled res ≡ err (error_of res (http_text res.status))
unfolding settled http_failure message_value with_status_text to_text
settled_silent res bad h = rw bad (
    rw (h.detail, h.non_field, h.all, h.errors, h.message, h.error)
      (rw (http_text-is_full res.status) (rw (http_text-is_full res.status) refl)))

-- A reply with a bad status whose body has a detail fails with that detail as its message.
pub settled_detail :
    (res : Response)
    → is_ok res.status ≡ false
    → truthy (get (data_of res.json) "detail") ≡ true
    → settled res ≡ err (error_of res (to_text (get (data_of res.json) "detail")))
unfolding settled http_failure message_value with_status_text
settled_detail res bad h = rw bad (rw h (rw h (rw h refl)))
