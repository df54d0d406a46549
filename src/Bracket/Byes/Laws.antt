-- ===== src/Bracket/Byes/Laws.antt =====
-- `propagateByesOneStep` against a description of the board, input by input.
use tkd_chb.Base.{
  eqb_iff, ◌≡◌, ◌≢◌, refl, ap, ◌∙◌, ℕ, zero, suc, ◌+◌, ◌-◌, ◌*◌, ◌/◌, ◌<◌, String, Bool, true,
  false, ◌&&◌, Option, none, some, ltb, eqb, if◌then◌else◌, arith, Bool-cases, inl, inr,
}
use tkd_chb.Bracket.Board.{
  Pos, a, b, Input, Board, is_rest, matches_in, has_match, pos_eq, put, map_round, FirstRound,
  first_round_info,
}
use tkd_chb.Bracket.Size.{IsPlaced, first_round_info-IsPlaced}
use tkd_chb.Bracket.Byes.{
  is_player, side, winner, is_open, advance_to, mark_bye, bye_step, bye_steps,
  propagate_byes_one_step,
}

-- The match of the first round whose winner goes to the input `j`, `p` of the next.
abbrev pub feeder : ℕ → Pos → ℕ
feeder j a = 2 * j
feeder j b = 2 * j + 1

abbrev pub advanced : Option String → Input → Input
advanced none x = x
advanced (some w) x = if is_open x.value then put w else x

-- The player of a match who has a bye as the opponent.
abbrev pub against_bye : String → String → Option String
against_bye x y =
    if is_player x && is_rest y then some x else if is_player y && is_rest x then some y else none

winner-against_bye : (x y : String) → winner x y ≡ against_bye x y
winner-against_bye x y = ground arith

-- The input after the byes are propagated, from the board before.
abbrev pub after_byes : ℕ → ℕ → ℕ → Board → ℕ → ℕ → Pos → Input
after_byes vr next count board r j p =
    if eqb r next && ltb (feeder j p) count && has_match next j
    then advanced
        (against_bye (board.inputs vr (feeder j p) a).value (board.inputs vr (feeder j p) b).value)
        (board.inputs r j p)
    else board.inputs r j p

feeder-side : (i : ℕ) → feeder (i / 2) (side i) ≡ i
feeder-side i = ground arith

is_fed : (i j : ℕ) (p : Pos) → (eqb j (i / 2) && pos_eq p (side i)) ≡ eqb (feeder j p) i
is_fed i j p = ground arith

fed_half : (i j : ℕ) (p : Pos) → eqb (feeder j p) i ≡ true → i / 2 ≡ j
fed_half i j p h = ground arith

fed_side : (i j : ℕ) (p : Pos) → eqb (feeder j p) i ≡ true → side i ≡ p
fed_side i j p h = ground arith

mark_bye-inputs : (vr i : ℕ) (board : Board) → (mark_bye vr i board).inputs ≡ board.inputs
mark_bye-inputs vr i board = ground arith

advance_to-inputs :
    (next i : ℕ) (w : Option String) (board : Board) (r j : ℕ) (p : Pos)
    → (advance_to next i w board).inputs r j p ≡ (
        if eqb r next && eqb (feeder j p) i && has_match next j
        then advanced w (board.inputs r j p)
        else board.inputs r j p)
advance_to-inputs next i none board r j p = ground arith
advance_to-inputs next i (some w) board r j p = elim (Bool-cases (has_match next (i / 2))) [
  | inl there ↦ ground (arith, is_fed i j p, fed_half i j p, fed_side i j p)
  | inr gone ↦ ground (arith, is_fed i j p, fed_half i j p, fed_side i j p)
]

bye_step-inputs :
    (vr next i : ℕ) (board : Board) (r j : ℕ) (p : Pos)
    → (bye_step vr next i board).inputs r j p ≡ (
        if eqb r next && eqb (feeder j p) i && has_match next j
        then advanced
            (against_bye (board.inputs vr i a).value (board.inputs vr i b).value)
            (board.inputs r j p)
        else board.inputs r j p)
unfolding bye_step
bye_step-inputs vr next i board r j p =
    let x = (board.inputs vr i a).value in
    let y = (board.inputs vr i b).value in
    ap (λ w. (advance_to next i w (mark_bye vr i board)).inputs r j p) (winner-against_bye x y)
    ∙ advance_to-inputs next i (against_bye x y) (mark_bye vr i board) r j p
    ∙ rw (mark_bye-inputs vr i board) refl

-- The first round is read and not written.
bye_steps-first :
    (vr next n : ℕ) (board : Board)
    → vr ≢ next
    → (j : ℕ) (p : Pos) → (bye_steps vr next n board).inputs vr j p ≡ board.inputs vr j p
unfolding bye_steps
bye_steps-first vr next zero board h j p = refl
bye_steps-first vr next (suc n) board h j p =
    bye_step-inputs vr next n (bye_steps vr next n board) vr j p
    ∙ ground (arith, bye_steps-first vr next n board h j p)

and-false : (x : Bool) → (x && false) ≡ false
and-false true = refl
and-false false = refl

lt_suc_of_ne : (f n : ℕ) → eqb f n ≡ false → ltb f (suc n) ≡ ltb f n
lt_suc_of_ne f n h = ground arith

column_differs : (vr r k : ℕ) → vr ≡ r + 5 - k → 0 < matches_in vr → vr ≢ r + 1 + 5 - k
column_differs zero r k e some_match q = elim some_match [ ]
column_differs (suc v) r k e some_match q = omega arith

-- The next round stands in another column.
next_differs :
    (rounds : ℕ) (info : FirstRound)
    → IsPlaced rounds info
    → info.vr ≢ map_round rounds (info.r + 1)
unfolding map_round
next_differs rounds info h = column_differs info.vr info.r rounds h.column h.some_match

-- One more match is fed: the bound grows by one.
one_more :
    (w : ℕ → Option String) (x : Input) (f n : ℕ) (c d : Bool)
    → ◌≡◌ {A = Input}
        (if c && eqb f n && d
          then advanced (w n) (if c && ltb f n && d then advanced (w f) x else x)
          else if c && ltb f n && d
          then advanced (w f) x
          else x)
        (if c && ltb f (suc n) && d then advanced (w f) x else x)
one_more w x f n false d = refl
one_more w x f n true false =
    rw (and-false (eqb f n), and-false (ltb f n), and-false (ltb f (suc n)))
one_more w x f n true true = elim (Bool-cases (eqb f n)) [
  | inl same ↦ rw ((eqb_iff f n).0 same) (ground arith)
  | inr other ↦ rw other (rw (lt_suc_of_ne f n other) refl)
]

pub bye_steps-inputs :
    (vr next n : ℕ) (board : Board) (r j : ℕ) (p : Pos)
    → vr ≢ next
    → (bye_steps vr next n board).inputs r j p ≡ after_byes vr next n board r j p
unfolding bye_steps
bye_steps-inputs vr next zero board r j p h = ground arith
bye_steps-inputs vr next (suc n) board r j p h =
    bye_step-inputs vr next n (bye_steps vr next n board) r j p
    ∙ rw
        (
          bye_steps-first vr next n board h n a,
          bye_steps-first vr next n board h n b,
          bye_steps-inputs vr next n board r j p h,
        )
        (one_more (λ i. against_bye (board.inputs vr i a).value (board.inputs vr i b).value)
          (board.inputs r j p) (feeder j p) n (eqb r next) (has_match next j))

-- Propagating the byes from the first round of the card: an input of the next column, if its match
-- is on the card and it is blank or a bye, gets the player whose opponent in the match that feeds
-- it is a bye; every other input of the card stays as it was.
pub propagate_byes-inputs :
    (rounds : ℕ) (info : FirstRound) (board : Board) (r j : ℕ) (p : Pos)
    → first_round_info rounds ≡ some info
    → (propagate_byes_one_step rounds board).inputs r j p
      ≡ after_byes info.vr (map_round rounds (info.r + 1)) info.count board r j p
unfolding propagate_byes_one_step
propagate_byes-inputs rounds info board r j p e = rw e (
    bye_steps-inputs info.vr (map_round rounds (info.r + 1)) info.count board r j p
      (next_differs rounds info (first_round_info-IsPlaced rounds info e)))
