-- ===== src/Bracket/Single.antt =====
-- CompetitionBracket.jsx, `fillSinglePathAllTheWay`: a lone player is written into every round.
pub mod Walk
pub mod Laws
use Prim.Native.String.{◌++◌ as ◌<>◌}
use tkd_chb.Base.{
  ℕ, zero, suc, ◌+◌, ◌/◌, String, ◌==◌, Bool, true, false, not, ◌||◌, Option, none, some, ltb, eqb,
  if◌then◌else◌,
}
use tkd_chb.Base.Text.{trim}
use tkd_chb.Bracket.Board.{
  Pos, a, b, Input, Board, matches_in, has_match, rest_word, set_input, set_bubble, put, map_round,
  FirstRound,
}
use tkd_chb.Bracket.Byes.{side, marked}

-- whether the match `i` of the column holds the name
abbrev holds : String → ℕ → ℕ → Board → Bool
holds name vr i board =
    trim (board.inputs vr i a).value == name || trim (board.inputs vr i b).value == name

-- for (idx = 0; idx < count; idx++) if (…) { i = idx; break; }, from `idx` on
unfoldable pub find_match : ℕ → ℕ → String → ℕ → Board → ℕ
find_match zero idx name vr board = 0
find_match (suc left) idx name vr board =
    let later = find_match left (idx + 1) name vr board in
    if holds name vr idx board then idx else later

abbrev seated : String → ℕ → ℕ → Board → Board
seated name vr i board =
    if trim (board.inputs vr i a).value == name
    then set_input vr i b (put rest_word) board
    else if trim (board.inputs vr i b).value == name
    then set_input vr i a (put rest_word) board
    else set_input vr i b (put rest_word) (set_input vr i a (put name) board)

-- the first round: the opponent is a bye, and the bubble is marked
unfoldable pub first_match : String → ℕ → ℕ → Board → Board
first_match name vr i board = set_bubble vr i marked (seated name vr i board)

abbrev pub advance_name : String → ℕ → ℕ → Board → Board
advance_name name next i board =
    if has_match next (i / 2) then set_input next (i / 2) (side i) (put name) board else board

-- the `while (true)` loop; `none` stands for a loop that goes on after its fuel
unfoldable pub path_from : ℕ → String → ℕ → ℕ → ℕ → ℕ → Board → Option Board
path_from zero name rounds first r i board = none
path_from (suc f) name rounds first r i board =
    let vr = map_round rounds r in
    let next = map_round rounds (r + 1) in
    let here = if eqb vr first then first_match name vr i board else board in
    let more = path_from f name rounds first (r + 1) (i / 2) (advance_name name next i here) in
    if not (has_match vr i)
    then some board
    else if not (ltb 0 (matches_in next))
    then some here
    else more

-- the champion's input
abbrev crown : String → Board → Board
crown name board = record board {
  champion = record board.champion { value = "🏆  " <> name; title = name };
}

abbrev crowned : String → Option Board → Option Board
crowned name none = none
crowned name (some board) = some (crown name board)

single_path : String → ℕ → Option FirstRound → Board → Option Board
single_path name rounds none board = some board
single_path name rounds (some info) board =
    if name == ""
    then some board
    else crowned name
        (path_from 6 name rounds info.vr info.r (find_match info.count 0 name info.vr board) board)

-- six rounds of the loop are enough: there are five columns
unfoldable pub fill_single_path_all_the_way : String → ℕ → Option FirstRound → Board → Option Board
unfolding single_path path_from find_match first_match
fill_single_path_all_the_way name rounds info board = single_path name rounds info board
