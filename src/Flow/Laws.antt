-- ===== src/Flow/Laws.antt =====
-- What the window of the agreement shows, and where it leads.
use tkd_chb.Base.{
  ◌≡◌, ◌≢◌, ◌∙◌, ◌⊎◌, inl, inr, refl, String, ◌==◌, Bool, true, false, not, ◌||◌, Option, none,
  some, List, [], ◌∷◌, any, if◌then◌else◌, arith, Bool-cases,
}
use tkd_chb.Base.Text.Laws.{or_text_full}
use tkd_chb.Base.Js.{Js, truthy}
use tkd_chb.Base.Exec.{Failure, Result, Result-cases, ok, err}
use tkd_chb.Storage.{Storage}
use tkd_chb.Net.{Server, World}
use tkd_chb.Api.Endpoints.{get_competition_terms}
use tkd_chb.Flow.{
  Flow, at_code, first_render, public_id_of, get_role_segment, with_terms, received_terms,
  received_status, bootstrap, approve_of, approval_status_of, approval_sent, handle_approve,
  code_received, refresh_code, on_check,
}

abbrev pub segments : List String
segments = "coach" ∷ "player" ∷ "referee" ∷ "club" ∷ "heyat" ∷ "board" ∷ []

abbrev is_segment : String → Bool
is_segment r = any (λ k. k == r) segments

if-is_segment :
    (b : Bool) (r s : String)
    → (b ≡ true → is_segment r ≡ true)
    → is_segment s ≡ true
    → is_segment (if b then r else s) ≡ true
if-is_segment true r s h k = h refl
if-is_segment false r s h k = k

-- Whatever role is stored, the path begins with one of the six roles that have a dashboard.
pub get_role_segment-is_segment : (s : Storage) → is_segment (get_role_segment s) ≡ true
unfolding get_role_segment
get_role_segment-is_segment s = search if-is_segment depth 12

-- The window is ready, and a coach who is approved is at the step of the code.
pub record IsShown (f : Flow) : Type 0 where
  pub ready : f.loading ≡ false
  pub idle : f.submitting ≡ false
  pub at_the_code : f.approved ≡ true → f.step ≡ at_code

with_terms-kept :
    (title text : Option String) (f : Flow)
    → ((with_terms title text f).approved ≡ f.approved)
      × ((with_terms title text f).submitting ≡ f.submitting)
with_terms-kept (some title) (some text) f = (refl, refl)
with_terms-kept (some title) none f = (refl, refl)
with_terms-kept none text f = (refl, refl)

received_terms-kept :
    (r : Result Js) (f : Flow)
    → ((received_terms r f).approved ≡ f.approved)
      × ((received_terms r f).submitting ≡ f.submitting)
unfolding received_terms
received_terms-kept (ok det) f = with_terms-kept _ _ f
received_terms-kept (err e) f = with_terms-kept none none f

received_status-kept :
    (r : Result Js) (f : Flow)
    → ((received_status r f).submitting ≡ f.submitting)
      × (f.approved ≡ false
          → (received_status r f).approved ≡ true
          → (received_status r f).step ≡ at_code)
unfolding received_status
received_status-kept (ok st) f = (refl, λ _ h. rw h refl)
received_status-kept (err e) f = (refl, λ off on. absurd (ground arith))

code_received-kept :
    (r : Result Js) (f : Flow)
    → ((code_received r f).loading ≡ f.loading) × ((code_received r f).step ≡ f.step)
code_received-kept (ok st) f = (refl, refl)
code_received-kept (err e) f = (refl, refl)

module _ (server : Server) (base : String) (competition : Js) where
  pub data Event : Type 0 where
    approve refresh : Event
    check : Bool → Event

  abbrev pub after : Event → Flow → World → Flow × World
  after approve f w = handle_approve server base competition f w
  after refresh f w = refresh_code server base competition f w
  after (check b) f w = (on_check b f, w)

  -- What is reached from the moment that `bootstrap` has ended.
  pub data Reaches (w : World) : Flow → World → Type 0 where
    ready_from :
        Reaches w
          (bootstrap server base competition first_render w).0
          (bootstrap server base competition first_render w).1
    then_event :
        {f : Flow} {v : World} (e : Event)
        → Reaches w f v
        → Reaches w (after e f v).0 (after e f v).1

  bootstrap-IsShown :
      (w : World)
      → truthy (public_id_of competition) ≡ true
      → IsShown (bootstrap server base competition first_render w).0
  unfolding bootstrap
  bootstrap-IsShown w h =
      let (terms, w1) = get_competition_terms server base (public_id_of competition) w in
      let here = record first_render { loading = true; error = "" } in
      let status = (approval_status_of server base competition w1).0 in
      rw h (record {
        ready = refl;
        idle =
            (received_status-kept status (received_terms terms here)).0
            ∙ (received_terms-kept terms here).1;
        at_the_code =
            (received_status-kept status (received_terms terms here)).1
              (received_terms-kept terms here).0;
      })

  approval_sent-step :
      (r : Result Js) (f : Flow) (w : World)
      → (f.approved ≡ true → f.step ≡ at_code)
      → (approval_sent server base competition r f w).0.approved ≡ true
      → (approval_sent server base competition r f w).0.step ≡ at_code
  unfolding approval_sent
  approval_sent-step (ok res) f w sees h = ground arith
  approval_sent-step (err e) f w sees h = sees h

  approval_sent-loading :
      (r : Result Js) (f : Flow) (w : World)
      → (approval_sent server base competition r f w).0.loading ≡ f.loading
  unfolding approval_sent
  approval_sent-loading (ok res) f w = ground arith
  approval_sent-loading (err e) f w = refl

  approval_sent-error :
      (e : Failure) (f : Flow) (w : World)
      → (approval_sent server base competition (err e) f w).0.error ≢ ""
  unfolding approval_sent
  approval_sent-error e f w =
      or_text_full e.message
        "\u{62e}\u{637}\u{627} \u{62f}\u{631} \u{62a}\u{627}\u{6cc}\u{6cc}\u{62f} \u{62a}\u{639}\u{647}\u{62f}\u{646}\u{627}\u{645}\u{647}"
        (λ e. cc)

  handle_approve-IsShown :
      (f : Flow) (w : World) → IsShown f → IsShown (handle_approve server base competition f w).0
  unfolding handle_approve
  handle_approve-IsShown f w shown =
      let (r, w1) = approve_of server base competition w in
      let here = record f { submitting = true; error = "" } in
      elim (Bool-cases (not f.checked || not (truthy (public_id_of competition)))) [
        | inl held ↦ rw held shown
        | inr sent ↦ rw sent (record {
          ready = rw (approval_sent-loading r here w1) shown.ready;
          idle = refl;
          at_the_code = approval_sent-step r here w1 shown.at_the_code;
        })
      ]

  after-IsShown : (e : Event) (f : Flow) (w : World) → IsShown f → IsShown (after e f w).0
  unfolding refresh_code on_check
  after-IsShown approve f w shown = handle_approve-IsShown f w shown
  after-IsShown refresh f w shown =
      let r = (approval_status_of server base competition w).0 in
      let here = record f { submitting = true; error = ""; step = at_code } in
      record {
        ready = (code_received-kept r here).0 ∙ shown.ready;
        idle = refl;
        at_the_code = λ _. (code_received-kept r here).1;
      }
  after-IsShown (check b) f w shown = record {
    ready = shown.ready;
    idle = shown.idle;
    at_the_code = shown.at_the_code;
  }

  -- For a competition with an id, once it is loaded and whatever the coach then does and the server
  -- answers, the window is ready and idle after every event, and an approved coach is at the step of
  -- the code.
  pub Reaches-IsShown :
      {w : World} {f : Flow} {v : World}
      → truthy (public_id_of competition) ≡ true
      → Reaches w f v
      → IsShown f
  Reaches-IsShown {w = w} h ready_from = bootstrap-IsShown w h
  Reaches-IsShown h (then_event {f = f} {v = v} e run) = after-IsShown e f v (Reaches-IsShown h run)

  -- A coach who has ticked the box approves a competition with an id: either the server agrees, and
  -- the window shows the step of the code without an error, or it does not, and the window keeps its
  -- step and its code and has an error to show.
  pub handle_approve-outcome :
      (f : Flow) (w : World)
      → f.checked ≡ true
      → truthy (public_id_of competition) ≡ true
      → ((res : Js) × ((approve_of server base competition w).0 ≡ ok res)
          × ((handle_approve server base competition f w).0.step ≡ at_code)
          × ((handle_approve server base competition f w).0.error ≡ ""))
        ⊎ ((e : Failure) × ((approve_of server base competition w).0 ≡ err e)
            × ((handle_approve server base competition f w).0.step ≡ f.step)
            × ((handle_approve server base competition f w).0.code ≡ f.code)
            × ((handle_approve server base competition f w).0.error ≢ ""))
  unfolding handle_approve approval_sent
  handle_approve-outcome f w ticked named =
      elim (Result-cases (approve_of server base competition w).0) [
        | inl (res, is_ok) ↦ inl (
          res,
          is_ok,
          rw (ticked, named, is_ok) (ground arith),
          rw (ticked, named, is_ok) (ground arith),
        )
        | inr (e, is_err) ↦ inr (
          e,
          is_err,
          rw (ticked, named, is_err) refl,
          rw (ticked, named, is_err) refl,
          rw (ticked, named, is_err)
              (approval_sent-error e (record f { checked = true; submitting = true; error = "" })
                (approve_of server base competition w).1),
        )
      ]
