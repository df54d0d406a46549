-- ===== src/Bracket/Byes.antt =====
-- CompetitionBracket.jsx, `propagateByesOneStep`: who meets a bye in the first round goes on.
pub mod Laws
use tkd_chb.Base.{
  ◌≡◌, refl, ap, ℕ, zero, suc, ◌+◌, ◌-◌, ◌*◌, ◌/◌, ◌%◌, ◌<◌, ◌≤◌, String, ◌==◌, Bool, true, false,
  not, ◌&&◌, ◌||◌, Option, none, some, ltb, leb, eqb, if◌then◌else◌, arith,
}
use tkd_chb.Bracket.Board.{
  Pos, a, b, Input, Bubble, Board, matches_in, has_match, pos_eq, rest_word, set_input, set_bubble,
  is_rest, non_empty, put, map_round, FirstRound, first_round_info,
}

-- a name that is neither blank nor the bye
abbrev pub is_player : String → Bool
is_player v = non_empty v && not (is_rest v)

abbrev pub side : ℕ → Pos
side i = if eqb (i % 2) 0 then a else b

abbrev pub marked : Bubble
marked = record { value = ""; title = rest_word; bye_mark = true }

abbrev pub xor : Bool → Bool → Bool
xor true y = not y
xor false y = y

-- the bubble of a match with one bye is marked
abbrev pub mark_bye : ℕ → ℕ → Board → Board
mark_bye vr i board =
    if xor (is_rest (board.inputs vr i a).value) (is_rest (board.inputs vr i b).value)
    then set_bubble vr i marked board
    else board

-- the player whom a bye lets through
abbrev pub winner : String → String → Option String
winner x y =
    if is_player x && is_rest y || is_player y && is_rest x
    then some (if is_player x then x else y)
    else none

abbrev pub is_open : String → Bool
is_open v = not (non_empty v) || is_rest v

-- the write into the next round, where its input is there and open
abbrev pub advance_to : ℕ → ℕ → Option String → Board → Board
advance_to next i none board = board
advance_to next i (some w) board =
    if has_match next (i / 2) && is_open (board.inputs next (i / 2) (side i)).value
    then set_input next (i / 2) (side i) (put w) board
    else board

-- one round of the loop
unfoldable pub bye_step : ℕ → ℕ → ℕ → Board → Board
bye_step vr next i board =
    advance_to next i (winner (board.inputs vr i a).value (board.inputs vr i b).value)
      (mark_bye vr i board)

-- for (let i = 0; i < count; i++), by the rounds made
unfoldable pub bye_steps : ℕ → ℕ → ℕ → Board → Board
bye_steps vr next zero board = board
bye_steps vr next (suc n) board = bye_step vr next n (bye_steps vr next n board)

propagate_from : ℕ → Option FirstRound → Board → Board
propagate_from rounds none board = board
propagate_from rounds (some info) board =
    bye_steps info.vr (map_round rounds (info.r + 1)) info.count board

unfoldable pub propagate_byes_one_step : ℕ → Board → Board
unfolding propagate_from bye_steps bye_step
propagate_byes_one_step rounds board = propagate_from rounds (first_round_info rounds) board
