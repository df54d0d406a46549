-- ===== src/Bracket/Fill.antt =====
-- CompetitionBracket.jsx: the effect that writes a draw onto its card.
use tkd_chb.Base.{
  ℕ, ◌+◌, ◌*◌, String, ◌==◌, Bool, false, not, ◌&&◌, Option, none, some, List, [], ◌∷◌, length, eqb,
  if◌then◌else◌,
}
use tkd_chb.Base.Text.{trim}
use tkd_chb.Base.Js.{Js, str, num, or_else, to_text}
use tkd_chb.Bracket.Board.{
  a, b, Bubble, Board, has_match, rest_word, set_input, set_bubble, with_value, map_round,
  FirstRound, first_round_info, rounds_count, shift_columns,
}
use tkd_chb.Bracket.Match.{
  Match, name_a, name_b, get_match_number, by_round, sort_matches, number_rest,
  detect_single_player_name,
}
use tkd_chb.Bracket.Byes.{xor, marked, propagate_byes_one_step}
use tkd_chb.Bracket.Single.{fill_single_path_all_the_way}

-- The value of one side: its name, or the bye against a name in the first round, or what stood there.
abbrev pub side_value : Bool → String → Bool → String → String
side_value bye name opposed old =
    if not (trim name == "") then name else if opposed && bye then rest_word else old

abbrev fallback_value : Option ℕ → Js
fallback_value none = str ""
fallback_value (some n) = num n

-- getMatchNumber(m) || m.__fallback_no__ || ""
abbrev number_text : Match → String
number_text m =
    to_text (or_else (get_match_number m) (or_else (fallback_value m.fallback_no) (str "")))

abbrev pub bubble_of : Bool → String → String → Match → Bubble
bubble_of is_first x y m =
    if is_first && xor (trim x == rest_word) (trim y == rest_word)
    then marked
    else record { value = number_text m; title = number_text m; bye_mark = false }

-- one match of a round, where the card has it
unfoldable pub fill_match : ℕ → Bool → ℕ → Match → Board → Board
fill_match vr is_first i m board =
    let bye = m.is_bye && is_first in
    let pa = name_a m in
    let pb = name_b m in
    let x = side_value bye pa (not (trim pb == "")) (board.inputs vr i a).value in
    let y = side_value bye pb (not (trim pa == "")) (board.inputs vr i b).value in
    if has_match vr i
    then set_bubble vr i (bubble_of is_first x y m) (
        set_input vr i b (with_value y (board.inputs vr i b))
          (set_input vr i a (with_value x (board.inputs vr i a)) board))
    else board

unfoldable pub fill_round : ℕ → Bool → ℕ → List Match → Board → Board
fill_round vr is_first i [] board = board
fill_round vr is_first i (m ∷ ms) board =
    fill_round vr is_first (i + 1) ms (fill_match vr is_first i m board)

abbrev is_column : Option FirstRound → ℕ → Bool
is_column none vr = false
is_column (some info) vr = eqb vr info.vr

unfoldable pub fill_rounds : ℕ → Option FirstRound → List (ℕ × List Match) → Board → Board
fill_rounds rounds info [] board = board
fill_rounds rounds info ((r, ms) ∷ rest) board =
    let vr = map_round rounds r in
    fill_rounds rounds info rest
      (fill_round vr (is_column info vr) 0 (number_rest 1 (sort_matches ms)) board)

pub record Draw : Type 0 where
  pub size : ℕ
  pub matches : List Match

-- draw.size || Math.max(1, draw.matches.length * 2)
unfoldable pub declared_size : Draw → ℕ
declared_size draw =
    if eqb draw.size 0
    then (if eqb (length draw.matches) 0 then 1 else length draw.matches * 2)
    else draw.size

abbrev settle : ℕ → Draw → Board → Option Board
settle rounds draw board =
    let name = detect_single_player_name draw.matches in
    if name == ""
    then some (propagate_byes_one_step rounds board)
    else fill_single_path_all_the_way name rounds (first_round_info rounds) board

fill_placed : Option ℕ → Draw → Board → Option Board
fill_placed none draw board = none
fill_placed (some rounds) draw board = settle rounds draw (
    fill_rounds rounds (first_round_info rounds) (by_round draw.matches)
      (shift_columns rounds board))

-- the effect on [draw]; `none` where a loop of the source does not end
unfoldable pub fill_card : Draw → Board → Option Board
unfolding fill_placed
fill_card draw board = fill_placed (rounds_count (declared_size draw)) draw board
