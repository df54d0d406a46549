-- ===== src/Bracket/Single/Laws.antt =====
-- A lone player stands in every column of the card from the first round to the final.
use tkd_chb.Base.{
  ◌≡◌, refl, sym, ap, ◌∙◌, inl, inr, ℕ, zero, suc, ◌+◌, ◌-◌, ◌/◌, ◌<◌, ◌≤◌, String, ◌==◌, eq_iff,
  true, false, some, ltb, eqb, eqb_iff, arith, Bool-cases,
}
use tkd_chb.Base.Text.{trim}
use tkd_chb.Bracket.Board.{
  a, b, Board, matches_in, has_match, put, map_round, FirstRound, first_round_info,
}
use tkd_chb.Bracket.Size.{IsPlaced, first_round_info-IsPlaced}
use tkd_chb.Bracket.Single.{
  find_match, first_match, advance_name, path_from, crown, fill_single_path_all_the_way,
}
use tkd_chb.Bracket.Single.Walk.{
  OnColumn, Walked, next_round, has_match-half, column_bounds, last_column, Walked-step, Walked-end,
  here, path_from-last, path_from-more, path_from-Walked,
}

find_match-bound :
    (left idx : ℕ) (name : String) (vr : ℕ) (board : Board)
    → find_match left idx name vr board ≤ idx + (left - 1)
unfolding find_match
find_match-bound zero idx name vr board = omega arith
find_match-bound (suc zero) idx name vr board = ground arith
find_match-bound (suc (suc left)) idx name vr board =
    ground (arith, find_match-bound (suc left) (idx + 1) name vr board)

find_match-on_card :
    (count : ℕ) (name : String) (vr : ℕ) (board : Board)
    → count ≡ matches_in vr
    → 0 < matches_in vr
    → has_match vr (find_match count 0 name vr board) ≡ true
find_match-on_card count name vr board e some_match =
    let bound = find_match-bound count 0 name vr board in ground (arith, bound)

-- The first match holds the name afterwards.
first_match-OnColumn :
    (name : String) (vr i : ℕ) (board : Board)
    → has_match vr i ≡ true
    → OnColumn name vr (first_match name vr i board)
unfolding first_match put
first_match-OnColumn name vr i board on =
    elim (Bool-cases (trim (board.inputs vr i a).value == name)) [
      | inl left ↦ record {
        j = i;
        p = a;
        there = on;
        written = inr (ground (arith, eq_iff (trim (board.inputs vr i a).value) name));
      }
      | inr not_left ↦ elim (Bool-cases (trim (board.inputs vr i b).value == name)) [
        | inl right ↦ record {
          j = i;
          p = b;
          there = on;
          written = inr (ground (arith, eq_iff (trim (board.inputs vr i b).value) name));
        }
        | inr not_right ↦ record { j = i; p = a; there = on; written = inl (ground arith) }
      ]
    ]

OnColumn-kept :
    (name : String) (vr : ℕ) (board board' : Board)
    → Walked name vr board board'
    → (c : ℕ) → c ≤ vr
    → OnColumn name c board
    → OnColumn name c board'
OnColumn-kept name vr board board' w c le o = record {
  j = o.j;
  p = o.p;
  there = o.there;
  written = rw (w.kept c o.j o.p le) o.written;
}

-- The loop from the first column on: it ends, and the name stands in every column.
path_from-OnColumn :
    (name : String) (rounds r i vr : ℕ) (board : Board)
    → map_round rounds r ≡ vr
    → has_match vr i ≡ true
    → (board' : Board) × (path_from 6 name rounds vr r i board ≡ some board')
      × Walked name vr (first_match name vr i board) board'
path_from-OnColumn name rounds r i vr board at there =
    let board₁ = first_match name vr i board in
    let first : here name vr vr i board ≡ board₁ = ground arith in
    elim (Bool-cases (ltb 0 (matches_in (suc vr)))) [
      | inl more ↦
          let on = has_match-half vr i there more in
          let (board', runs, walked) =
            path_from-Walked 5 name rounds vr (r + 1) (i / 2) (suc vr)
              (advance_name name (suc vr) i board₁)
              (next_round rounds r (rw at (column_bounds vr i there).0) ∙ ap suc at) (omega arith)
              (omega (arith, (column_bounds vr i there).0)) on in
          (
            board',
            path_from-more 5 name rounds vr r i vr board at there more ∙ rw first runs,
            Walked-step name vr i board₁ board' on walked,
          )
      | inr last ↦ (
        board₁,
        path_from-last 5 name rounds vr r i vr board at there last ∙ ap some first,
        Walked-end name vr board₁ (last_column vr last (column_bounds vr i there).0),
      )
    ]

OnColumn-Walked :
    (name : String) (vr : ℕ) (board board' : Board)
    → Walked name vr board board'
    → OnColumn name vr board
    → (c : ℕ) → vr ≤ c
    → c ≤ 5
    → OnColumn name c board'
OnColumn-Walked name vr board board' w o c from to = elim (Bool-cases (eqb c vr)) [
  | inl same ↦ rw ((eqb_iff c vr).0 same) (OnColumn-kept name vr board board' w vr (omega arith) o)
  | inr other ↦ w.reached c (ground arith) to
]

-- A draw with a lone player: the loop ends, the player is named the champion, and in every column
-- from the first round to the final some input of the card holds the player's name.
pub fill_single_path-OnColumn :
    (name : String) (rounds : ℕ) (info : FirstRound) (board : Board) (c : ℕ)
    → (name == "") ≡ false
    → first_round_info rounds ≡ some info
    → info.vr ≤ c
    → c ≤ 5
    → (board' : Board) × (fill_single_path_all_the_way name rounds (some info) board ≡ some board')
      × OnColumn name c board'
      × (board'.champion.title ≡ name)
unfolding fill_single_path_all_the_way
fill_single_path-OnColumn name rounds info board c named e from to =
    let placed = first_round_info-IsPlaced rounds info e in
    let i = find_match info.count 0 name info.vr board in
    let on = find_match-on_card info.count name info.vr board placed.counted placed.some_match in
    let (board', runs, walked) =
      path_from-OnColumn name rounds info.r i info.vr board (sym (round_column placed)) on in
    (
      crown name board',
      rw (named, runs),
      on_crowned (
          OnColumn-Walked name info.vr (first_match name info.vr i board) board' walked
            (first_match-OnColumn name info.vr i board on) c from to),
      refl,
    )
  where
    round_column : IsPlaced rounds info → info.vr ≡ map_round rounds info.r
    round_column h = unfold map_round in h.column

    on_crowned : {d : Board} → OnColumn name c d → OnColumn name c (crown name d)
    on_crowned o = record { j = o.j; p = o.p; there = o.there; written = o.written }
