-- ===== src/Bracket/Examples.antt =====
-- The theorems on the bracket at concrete draws.
use tkd_chb.Base.{
  ◌≡◌, refl, ℕ, none, some, List, [], ◌∷◌, String, false, arith, eqb, if◌then◌else◌, ◌&&◌,
}
use tkd_chb.Bracket.Board.{
  a, b, Input, Board, rounds_count, map_round, FirstRound, first_round_info, rest_word,
}
use tkd_chb.Base.Js.{null}
use tkd_chb.Bracket.Match.{Match}
use tkd_chb.Bracket.Size.{IsRounds, rounds_count_total, first_round_info_whole}
use tkd_chb.Bracket.Byes.{propagate_byes_one_step}
use tkd_chb.Bracket.Single.{fill_single_path_all_the_way}
use tkd_chb.Bracket.Single.Walk.{OnColumn}
use tkd_chb.Bracket.Single.Laws.{fill_single_path-OnColumn}
use tkd_chb.Bracket.Byes.Laws.{after_byes, propagate_byes-inputs}

rounds_count_total_example : (n : ℕ) × (rounds_count 20 ≡ some n) × IsRounds 20 n
rounds_count_total_example = rounds_count_total 20 (omega arith)

drawn_first_round : first_round_info 3 ≡ some (record { r = 1; vr = 3; count = 4 })
drawn_first_round = first_round_info_whole 3 (omega arith) (omega arith)

abbrev named : String → Input
named v = record { value = v; title = v; bye = false }

-- Four players of three rounds: the second match of the first round is a bye.
abbrev drawn : Board
drawn = record {
  inputs = λ r i p.
      if eqb r 3 && eqb i 1 then named (elim p [ a ↦ "Sara" | b ↦ rest_word ]) else named "";
  bubbles = λ r i. record { value = ""; title = ""; bye_mark = false };
  champion = named "";
  hidden = λ c. false;
}

abbrev placed : FirstRound
placed = record { r = 1; vr = 3; count = 4 }

propagate_byes-inputs_example :
    (propagate_byes_one_step 3 drawn).inputs 4 0 b ≡ after_byes 3 4 4 drawn 4 0 b
unfolding map_round
propagate_byes-inputs_example = propagate_byes-inputs 3 placed drawn 4 0 b drawn_first_round

fill_single_path-OnColumn_example :
    (board' : Board) × (fill_single_path_all_the_way "Sara" 3 (some placed) drawn ≡ some board')
    × OnColumn "Sara" 4 board'
    × (board'.champion.title ≡ "Sara")
unfolding map_round
fill_single_path-OnColumn_example =
    fill_single_path-OnColumn "Sara" 3 placed drawn 4 refl drawn_first_round (omega arith)
      (omega arith)

-- the match of a round at a place
abbrev match_at : ℕ → ℕ → Match
match_at r k = record {
  player_a_name = none;
  a_name = none;
  player_a = none;
  player_b_name = none;
  b_name = none;
  player_b = none;
  is_bye = false;
  round_no = some r;
  round = none;
  stage = none;
  slot_a = some k;
  order_in_round = none;
  index = none;
  number_fields = λ k. null;
  fallback_no = none;
}

abbrev three_matches : List Match
three_matches = match_at 2 0 ∷ match_at 1 1 ∷ match_at 1 0 ∷ []
