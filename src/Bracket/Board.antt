-- ===== src/Bracket/Board.antt =====
-- CompetitionBracket.jsx: the inputs of the card, and how the rounds of a draw are placed on them.
-- The card has five columns of matches, 16, 8, 4, 2 and 1, and the champion. A round of a draw with
-- fewer rounds stands in a column further on, so that the final is always the fifth.
use tkd_chb.Base.{
  ℕ, zero, suc, ◌+◌, ◌-◌, ◌^◌, String, ◌==◌, Bool, true, false, not, ◌&&◌, Option, none, some, ltb,
  leb, eqb, if◌then◌else◌,
}
use tkd_chb.Base.Text.{trim}

pub data Pos : Type 0 where
  a b : Pos

-- <input class="player-input">: `bye` is its class of that name
pub record Input : Type 0 where
  pub value : String
  pub title : String
  pub bye : Bool

-- <input class="bubble">: the number of a match; `bye_mark` is its class "bye-mark"
pub record Bubble : Type 0 where
  pub value : String
  pub title : String
  pub bye_mark : Bool

-- `hidden c` is the style display: none of the column c.
pub record Board : Type 0 where
  pub inputs : ℕ → ℕ → Pos → Input
  pub bubbles : ℕ → ℕ → Bubble
  pub champion : Input
  pub hidden : ℕ → Bool

-- The number of matches in a column.
abbrev pub matches_in : ℕ → ℕ
matches_in zero = 0
matches_in (suc zero) = 16
matches_in (suc (suc zero)) = 8
matches_in (suc (suc (suc zero))) = 4
matches_in (suc (suc (suc (suc zero)))) = 2
matches_in (suc (suc (suc (suc (suc zero))))) = 1
matches_in (suc (suc (suc (suc (suc (suc n)))))) = 0

-- whether the column `vr` has a match `i`
abbrev pub has_match : ℕ → ℕ → Bool
has_match vr i = ltb i (matches_in vr)

abbrev pub pos_eq : Pos → Pos → Bool
pos_eq a a = true
pos_eq b b = true
pos_eq _ _ = false

abbrev pub set_input : ℕ → ℕ → Pos → Input → Board → Board
set_input vr i p x board = record board {
  inputs = λ r j q. if eqb r vr && eqb j i && pos_eq q p then x else board.inputs r j q;
}

abbrev pub set_bubble : ℕ → ℕ → Bubble → Board → Board
set_bubble vr i x board = record board {
  bubbles = λ r j. if eqb r vr && eqb j i then x else board.bubbles r j;
}

-- The word for a bye.
abbrev pub rest_word : String
rest_word = "\u{627}\u{633}\u{62a}\u{631}\u{627}\u{62d}\u{62a}"

-- isRest(v)
unfoldable pub is_rest : String → Bool
is_rest v = trim v == rest_word

-- nonEmpty(v)
unfoldable pub non_empty : String → Bool
non_empty v = not (trim v == "")

-- what `put(el, val)` makes of an input
unfoldable pub put : String → Input
put v = record { value = v; title = v; bye = is_rest v }

-- an input whose value alone is assigned
abbrev pub with_value : String → Input → Input
with_value v x = record x { value = v }

-- while ((1 << roundsCount) < size) roundsCount++; the shift has 32 bits, so after 31 rounds it
-- never reaches a larger size: `none` stands for that endless loop
unfoldable pub rounds_from : ℕ → ℕ → ℕ → Option ℕ
rounds_from zero size count = none
rounds_from (suc f) size count =
    let more = rounds_from f size (count + 1) in if ltb (2 ^ count) size then more else some count

unfoldable pub at_least_one : ℕ → ℕ
at_least_one n = if ltb n 1 then 1 else n

abbrev pub positive : Option ℕ → Option ℕ
positive none = none
positive (some n) = some (at_least_one n)

-- the number of rounds of a draw of a declared size
unfoldable pub rounds_count : ℕ → Option ℕ
unfolding rounds_from at_least_one
rounds_count declared = positive (rounds_from 31 (at_least_one declared) 0)

-- mapRound(r), r + 5 - roundsCount. Where that is negative the model has 0, and neither is a column.
unfoldable pub map_round : ℕ → ℕ → ℕ
map_round rounds r = r + 5 - rounds

-- applyRoundShifting: a column before the first round is hidden
unfoldable pub shift_columns : ℕ → Board → Board
shift_columns rounds board = record board {
  hidden = λ c. if leb 1 c && leb c 5 then ltb (c + rounds) 6 else board.hidden c;
}

-- The first round that has a column: its number, its column and its matches.
pub record FirstRound : Type 0 where
  pub r : ℕ
  pub vr : ℕ
  pub count : ℕ

unfoldable pub first_from : ℕ → ℕ → ℕ → Option FirstRound
unfolding map_round
first_from zero rounds r = none
first_from (suc f) rounds r =
    let later = first_from f rounds (r + 1) in
    let vr = map_round rounds r in
    if ltb 0 (matches_in vr) then some (record { r = r; vr = vr; count = matches_in vr }) else later

-- firstRoundInfo: for (let r = 1; r <= 5; r++)
unfoldable pub first_round_info : ℕ → Option FirstRound
unfolding first_from
first_round_info rounds = first_from 5 rounds 1
