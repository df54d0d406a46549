-- ===== src/Bracket/Single/Walk.antt =====
-- CompetitionBracket.jsx, `fillSinglePathAllTheWay`: the loop's walk from column to column.
use tkd_chb.Base.{
  ◌≡◌, refl, ap, ◌∙◌, ◌⊎◌, inl, inr, ℕ, zero, suc, ◌+◌, ◌/◌, ◌<◌, ◌≤◌, String, true, false, some,
  ltb, eqb, eqb_iff, if◌then◌else◌, arith, Bool-cases,
}
use tkd_chb.Base.Text.{trim}
use tkd_chb.Bracket.Board.{Pos, Board, matches_in, has_match, put, map_round}
use tkd_chb.Bracket.Byes.{side}
use tkd_chb.Bracket.Single.{first_match, advance_name, path_from}

-- The name stands in an input of the column, perhaps with blanks round it.
pub record OnColumn (name : String) (c : ℕ) (board : Board) : Type 0 where
  pub j : ℕ
  pub p : Pos
  pub there : has_match c j ≡ true
  pub written : ((board.inputs c j p).value ≡ name) ⊎ (trim (board.inputs c j p).value ≡ name)

-- From the column `vr` on the loop has left the columns up to it, and written all after it.
pub record Walked (name : String) (vr : ℕ) (board board' : Board) : Type 0 where
  pub kept : (c j : ℕ) (p : Pos) → c ≤ vr → board'.inputs c j p ≡ board.inputs c j p
  pub reached : (c : ℕ) → vr < c → c ≤ 5 → OnColumn name c board'

pub next_round :
    (rounds r : ℕ) → 0 < map_round rounds r → map_round rounds (r + 1) ≡ suc (map_round rounds r)
unfolding map_round
next_round rounds r h = omega arith

-- The match that the winner of a match goes to is on the card too.
pub has_match-half :
    (vr i : ℕ)
    → has_match vr i ≡ true
    → ltb 0 (matches_in (suc vr)) ≡ true
    → has_match (suc vr) (i / 2) ≡ true
has_match-half zero i h k = ground arith
has_match-half (suc zero) i h k = ground arith
has_match-half (suc (suc zero)) i h k = ground arith
has_match-half (suc (suc (suc zero))) i h k = ground arith
has_match-half (suc (suc (suc (suc zero)))) i h k = ground arith
has_match-half (suc (suc (suc (suc (suc n))))) i h k = ground arith

pub column_bounds : (vr i : ℕ) → has_match vr i ≡ true → (0 < vr) × (vr ≤ 5)
column_bounds zero i h = ground arith
column_bounds (suc zero) i h = omega arith
column_bounds (suc (suc zero)) i h = omega arith
column_bounds (suc (suc (suc zero))) i h = omega arith
column_bounds (suc (suc (suc (suc zero)))) i h = omega arith
column_bounds (suc (suc (suc (suc (suc zero))))) i h = omega arith
column_bounds (suc (suc (suc (suc (suc (suc n)))))) i h = ground arith

pub last_column : (vr : ℕ) → ltb 0 (matches_in (suc vr)) ≡ false → 0 < vr → 5 ≤ vr
last_column zero h k = omega arith
last_column (suc zero) h k = ground arith
last_column (suc (suc zero)) h k = ground arith
last_column (suc (suc (suc zero))) h k = ground arith
last_column (suc (suc (suc (suc zero)))) h k = ground arith
last_column (suc (suc (suc (suc (suc n))))) h k = omega arith

advance_name-kept :
    (name : String) (next i : ℕ) (board : Board) (c j : ℕ) (p : Pos)
    → c < next
    → (advance_name name next i board).inputs c j p ≡ board.inputs c j p
advance_name-kept name next i board c j p h = ground arith

advance_name-written :
    (name : String) (next i : ℕ) (board : Board)
    → has_match next (i / 2) ≡ true
    → ((advance_name name next i board).inputs next (i / 2) (side i)).value ≡ name
unfolding put
advance_name-written name next i board h = ground arith

-- One round of the loop and what follows it.
pub Walked-step :
    (name : String) (vr i : ℕ) (board board' : Board)
    → has_match (suc vr) (i / 2) ≡ true
    → Walked name (suc vr) (advance_name name (suc vr) i board) board'
    → Walked name vr board board'
Walked-step name vr i board board' there w = record {
  kept = λ c j p le.
      w.kept c j p (omega arith) ∙ advance_name-kept name (suc vr) i board c j p (omega arith);
  reached = λ c lt le. elim (Bool-cases (eqb c (suc vr))) [
    | inl same ↦ rw ((eqb_iff c (suc vr)).0 same) (record {
      j = i / 2;
      p = side i;
      there = there;
      written = inl (
          ap (λ x. x.value) (w.kept (suc vr) (i / 2) (side i) (omega arith))
          ∙ advance_name-written name (suc vr) i board there);
    })
    | inr other ↦ w.reached c (ground arith) le
  ];
}

pub Walked-end : (name : String) (vr : ℕ) (board : Board) → 5 ≤ vr → Walked name vr board board
Walked-end name vr board h = record {
  kept = λ c j p le. refl;
  reached = λ c lt le. absurd (omega arith);
}

-- The board after the write of the first column, if this is the first.
abbrev pub here : String → ℕ → ℕ → ℕ → Board → Board
here name vr first i board = if eqb vr first then first_match name vr i board else board

module _ (f : ℕ) (name : String) (rounds first r i vr : ℕ) (board : Board)
    (at : map_round rounds r ≡ vr) (there : has_match vr i ≡ true) where
  pub path_from-last :
      ltb 0 (matches_in (suc vr)) ≡ false
      → path_from (suc f) name rounds first r i board ≡ some (here name vr first i board)
  unfolding path_from
  path_from-last last =
      let positive = (column_bounds vr i there).0 in
      let step = next_round rounds r (rw at positive) in rw (step, at, there, last)

  pub path_from-more :
      ltb 0 (matches_in (suc vr)) ≡ true
      → path_from (suc f) name rounds first r i board
        ≡ path_from f name rounds first
            (r + 1)
            (i / 2)
            (advance_name name (suc vr) i (here name vr first i board))
  unfolding path_from
  path_from-more more =
      let positive = (column_bounds vr i there).0 in
      let step = next_round rounds r (rw at positive) in rw (step, at, there, more)

-- After the first column, with fuel for the columns left, the loop ends.
pub path_from-Walked :
    (f : ℕ) (name : String) (rounds first r i vr : ℕ) (board : Board)
    → map_round rounds r ≡ vr
    → first < vr
    → 6 ≤ vr + f
    → has_match vr i ≡ true
    → (board' : Board) × (path_from f name rounds first r i board ≡ some board')
      × Walked name vr board board'
path_from-Walked zero name rounds first r i vr board at later fuel there =
    absurd (omega (arith, (column_bounds vr i there).1))
path_from-Walked (suc f) name rounds first r i vr board at later fuel there =
    let past : here name vr first i board ≡ board = ground arith in
    elim (Bool-cases (ltb 0 (matches_in (suc vr)))) [
      | inl more ↦
          let on = has_match-half vr i there more in
          let (board', runs, walked) =
            path_from-Walked f name rounds first (r + 1) (i / 2) (suc vr)
              (advance_name name (suc vr) i board)
              (next_round rounds r (rw at (column_bounds vr i there).0) ∙ ap suc at) (omega arith)
              (omega arith) on in
          (
            board',
            path_from-more f name rounds first r i vr board at there more ∙ rw past runs,
            Walked-step name vr i board board' on walked,
          )
      | inr last ↦ (
        board,
        path_from-last f name rounds first r i vr board at there last ∙ ap some past,
        Walked-end name vr board (last_column vr last (column_bounds vr i there).0),
      )
    ]
