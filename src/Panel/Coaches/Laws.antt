-- ===== src/Panel/Coaches/Laws.antt =====
-- Whom a club can choose.
use tkd_chb.Base.{
  ◌≡◌, refl, ℕ, Bool, true, false, ◌||◌, Option, none, some, List, [], ◌∷◌, ◌++◌, eqb, arith, ltb,
  any, ◌&&◌,
}
use tkd_chb.Base.Js.{Js}
use tkd_chb.Panel.{id_number, has_id, without_id}
use tkd_chb.Panel.Coaches.{
  Coaches, club_count, toggle_coach, handle_remove_confirmed, cancel_remove, removed,
}

has_id-append : (n : ℕ) (ns ms : List ℕ) → has_id n (ns ++ ms) ≡ (has_id n ns || has_id n ms)
has_id-append n [] ms = refl
has_id-append n (m ∷ ns) ms = ground (arith, has_id-append n ns ms)

has_id-without_id : (n k : ℕ) (ns : List ℕ) → has_id n (without_id k ns) ≡ true → has_id n ns ≡ true
unfolding without_id
has_id-without_id n k [] h = h
has_id-without_id n k (m ∷ ns) h = ground (arith, has_id-without_id n k ns)

-- What the club does on its page.
pub data Event : Type 0 where
  click : Js → Event
  confirm cancel : Event

abbrev pub after : Event → Coaches → Coaches
after (click coach) c = toggle_coach coach c
after confirm c = handle_remove_confirmed c
after cancel c = cancel_remove c

abbrev pub run : List Event → Coaches → Coaches
run [] c = c
run (e ∷ es) c = run es (after e c)

-- whether an event is a click on the coach `n`, with fewer than three clubs
abbrev pub offers : ℕ → Event → Bool
offers n (click coach) = eqb (id_number coach) n && ltb (club_count coach) 3
offers n confirm = false
offers n cancel = false

removed-selected :
    (n : ℕ) (modal : Option Js) (c : Coaches)
    → has_id n (removed modal c).selected_coaches ≡ true
    → has_id n c.selected_coaches ≡ true
removed-selected n none c h = h
removed-selected n (some coach) c h = has_id-without_id n (id_number coach) c.selected_coaches h

after-selected :
    (n : ℕ) (e : Event) (c : Coaches)
    → has_id n (after e c).selected_coaches ≡ true
    → (has_id n c.selected_coaches || offers n e) ≡ true
unfolding toggle_coach handle_remove_confirmed cancel_remove
after-selected n (click coach) c h =
    ground (arith, has_id-append n c.selected_coaches (id_number coach ∷ []))
after-selected n confirm c h = ground (arith, removed-selected n c.modal c h)
after-selected n cancel c h = ground arith

-- Whoever is selected after any clicks, confirmed and cancelled removals was selected before, or was
-- clicked with fewer than three clubs.
pub run-selected :
    (n : ℕ) (es : List Event) (c : Coaches)
    → has_id n (run es c).selected_coaches ≡ true
    → (has_id n c.selected_coaches || any (offers n) es) ≡ true
run-selected n [] c h = ground arith
run-selected n (e ∷ es) c h = ground (arith, run-selected n es (after e c) h, after-selected n e c)
