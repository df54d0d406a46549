-- ===== src/Students/Validation.antt =====
-- What the button of the table promises, and what a submission does.
use tkd_chb.Base.{
  ◌≡◌, ◌≢◌, ◌⊎◌, inl, inr, refl, ℕ, String, Bool, true, false, List, [], ◌∷◌, ◌++◌, every,
  if◌then◌else◌, arith, Bool-cases,
}
use tkd_chb.Base.Text.Laws.{or_text_full}
use tkd_chb.Base.Js.{Js, truthy, get, to_text}
use tkd_chb.Base.Exec.{Result, ok, err}
use tkd_chb.Net.{Server, World}
use tkd_chb.Api.Endpoints.{register_students_bulk}
use tkd_chb.Students.Ids.{extract_enrollment_ids}
use tkd_chb.Students.{
  Row, Rows, Table, row_of, row_or_blank, row_errors, no_errors, is_complete, selected_new_ids,
  can_submit, validate_row, validate_rows,
}
use tkd_chb.Students.Submit.{students_payload, registered, cards_or_error, submit}

is_complete-row_errors : (r : Row) → is_complete r ≡ true → no_errors (row_errors r) ≡ true
unfolding is_complete row_errors
is_complete-row_errors r h = ground arith

abbrev complete : Rows → Js → Bool
complete seen id = is_complete (row_or_blank (row_of seen (to_text id)))

validate_rows-passed :
    (seen : Rows) (ids : List Js) (sel : Rows)
    → every (complete seen) ids ≡ true
    → (validate_rows seen ids sel).1 ≡ true
unfolding validate_rows
validate_rows-passed seen [] sel h = refl
validate_rows-passed seen (id ∷ ids) sel h =
    let first : complete seen id ≡ true = ground arith in
    let others : every (complete seen) ids ≡ true = ground arith in
    rw (validate_row_passed seen (to_text id) sel first)
      (validate_rows-passed seen ids (validate_row seen (to_text id) sel).0 others)
  where
    validate_row_passed :
        (seen : Rows) (k : String) (sel : Rows)
        → is_complete (row_or_blank (row_of seen k)) ≡ true
        → (validate_row seen k sel).1 ≡ true
    validate_row_passed seen k sel full =
        unfold validate_row in is_complete-row_errors (row_or_blank (row_of seen k)) full

abbrev payload : Table → Js
payload t = students_payload t.sel (selected_new_ids t.students t.sel)

module _ (server : Server) (base : String) (slug : Js) (role : String) where
  -- Where the button is enabled, no row holds the submission back: it is the call of
  -- register_students_bulk on its payload, and afterwards the table is not loading and the question
  -- is closed.
  pub submit-can_submit :
      (t : Table) (w : World)
      → can_submit t ≡ true
      → ((submit server base slug role t w).1
          ≡ (register_students_bulk server base slug (payload t) w).1)
        × ((submit server base slug role t w).0.loading ≡ false)
        × ((submit server base slug role t w).0.confirm_open ≡ false)
  unfolding submit can_submit
  submit-can_submit t w ready =
      let full : every (complete t.sel) (selected_new_ids t.students t.sel) ≡ true = ground arith in
      rw (validate_rows-passed t.sel (selected_new_ids t.students t.sel) t.sel full)
        (refl, refl, refl)

  -- After a call the table either has gone to one page or shows an error.
  abbrev pub Answered : Table → Table → Type 0
  Answered t t' =
      ((path : String) × (t'.went ≡ t.went ++ path ∷ [])) ⊎ ((t'.went ≡ t.went) × (t'.error ≢ ""))

  cards_or_error-Answered : (ns : List ℕ) (t : Table) → Answered t (cards_or_error role ns t)
  unfolding cards_or_error
  cards_or_error-Answered [] t = inr (refl, λ e. cc)
  cards_or_error-Answered (n ∷ ns) t = inl (_, refl)

  registered-Answered : (r : Result Js) (t : Table) → Answered t (registered role r t)
  unfolding registered
  registered-Answered (ok res) t = elim (Bool-cases (truthy (get res "payment_url"))) [
    | inl pays ↦ rw pays (inl (_, refl))
    | inr free ↦ rw free (cards_or_error-Answered (extract_enrollment_ids res) t)
  ]
  registered-Answered (err e) t = inr (refl, or_text_full e.message _ (λ h. cc))

  -- What a submission comes to: it is held back, with no request sent and the page where it was, or
  -- the question is closed and the table is answered.
  abbrev pub IsSettled : Table → World → Table → World → Type 0
  IsSettled t w t' w' =
      (t'.loading ≡ false)
      × (((w' ≡ w) × (t'.went ≡ t.went)) ⊎ ((t'.confirm_open ≡ false) × Answered t t'))

  either :
      (b : Bool) (t : Table) (w : World) (x y : Table × World)
      → IsSettled t w x.0 x.1
      → IsSettled t w y.0 y.1
      → IsSettled t w (if b then x else y).0 (if b then x else y).1
  either true t w x y h k = h
  either false t w x y h k = k

  -- A submission of a table that is not loading leaves it not loading, whatever the rows hold and
  -- whatever the server answers: it is held back with no request sent and the page where it was, or
  -- the question is closed and the page has gone to one other page or shows an error.
  pub submit-IsSettled :
      (t : Table) (w : World)
      → t.loading ≡ false
      → IsSettled t w (submit server base slug role t w).0 (submit server base slug role t w).1
  unfolding submit
  submit-IsSettled t w idle =
      let ids = selected_new_ids t.students t.sel in
      let (sel, passed) = validate_rows t.sel ids t.sel in
      let here = record t { error = ""; sel = sel } in
      let answer = register_students_bulk server base slug (payload t) w in
      either passed t w
        (record (registered role answer.0 here) { loading = false; confirm_open = false }, answer.1)
        (here, w) (refl, inr (refl, registered-Answered answer.0 here)) (idle, inl (refl, refl))
