-- ===== src/Bracket/Match/Laws.antt =====
-- The rounds of a draw: each match stands in its own round, and every round is in order.
use mathlib.Core.List.{Perm, append-nil, perm-append_right_iff}
use mathlib.Core.List.Perm
use tkd_chb.Base.{
  ◌≡◌, refl, sym, ℕ, List, [], ◌∷◌, ◌++◌, eqb, eqb_iff, arith, All, Bool-cases, inl, inr,
}
use tkd_chb.Base.Sort.Laws.{Preorder, IsSorted, sort_by-IsSorted, sort_by-perm}
use tkd_chb.Bracket.Match.{
  Match, round_of, key_before, sort_matches, add_to_round, by_round_from, by_round,
}

key_before-Preorder : Preorder key_before
key_before-Preorder = record {
  total = λ m n h. ground arith;
  transitive = λ m n o h k. ground arith;
}

-- The matches of a round in the order of the card: all of them, by their slots.
pub sort_matches-IsSorted :
    (ms : List Match) → IsSorted key_before (sort_matches ms) × Perm (sort_matches ms) ms
unfolding sort_matches
sort_matches-IsSorted ms = (sort_by-IsSorted key_before-Preorder ms, sort_by-perm key_before ms)

abbrev pub all_matches : List (ℕ × List Match) → List Match
all_matches [] = []
all_matches ((r, ms) ∷ rounds) = ms ++ all_matches rounds

abbrev pub AreRounds : List (ℕ × List Match) → Type 0
AreRounds rounds = All (λ e. All (λ m. round_of m ≡ e.0) e.1) rounds

All-snoc :
    (r : ℕ) (m : Match) (ms : List Match)
    → round_of m ≡ r
    → All (λ n. round_of n ≡ r) ms
    → All (λ n. round_of n ≡ r) (ms ++ m ∷ [])
All-snoc r m [] h hs = (h, tt)
All-snoc r m (n ∷ ms) h (g, gs) = (g, All-snoc r m ms h gs)

add_to_round-AreRounds :
    (m : Match) (rounds : List (ℕ × List Match))
    → AreRounds rounds
    → AreRounds (add_to_round (round_of m) m rounds)
unfolding add_to_round
add_to_round-AreRounds m [] h = ((refl, tt), tt)
add_to_round-AreRounds m ((q, ms) ∷ rounds) (g, gs) = elim (Bool-cases (eqb q (round_of m))) [
  | inl same ↦ rw same (All-snoc q m ms (sym ((eqb_iff q (round_of m)).0 same)) g, gs)
  | inr other ↦ rw other (g, add_to_round-AreRounds m rounds gs)
]

snoc-perm : (m : Match) (ms ns : List Match) → Perm ((ms ++ m ∷ []) ++ ns) (m ∷ ms ++ ns)
snoc-perm m [] ns = Perm.refl (m ∷ ns)
snoc-perm m (n ∷ ms) ns = Perm.trans (Perm.cons n (snoc-perm m ms ns)) (Perm.swap m n (ms ++ ns))

pass-perm : (m : Match) (ms ns : List Match) → Perm (ms ++ m ∷ ns) (m ∷ ms ++ ns)
pass-perm m [] ns = Perm.refl (m ∷ ns)
pass-perm m (n ∷ ms) ns = Perm.trans (Perm.cons n (pass-perm m ms ns)) (Perm.swap m n (ms ++ ns))

append-perm : (ms : List Match) {ns os : List Match} → Perm ns os → Perm (ms ++ ns) (ms ++ os)
append-perm [] p = p
append-perm (m ∷ ms) p = Perm.cons m (append-perm ms p)

add_to_round-perm :
    (r : ℕ) (m : Match) (rounds : List (ℕ × List Match))
    → Perm (all_matches (add_to_round r m rounds)) (m ∷ all_matches rounds)
unfolding add_to_round
add_to_round-perm r m [] = Perm.refl (m ∷ [])
add_to_round-perm r m ((q, ms) ∷ rounds) = elim (Bool-cases (eqb q r)) [
  | inl same ↦ rw same (snoc-perm m ms (all_matches rounds))
  | inr other ↦ rw other (
      Perm.trans (append-perm ms (add_to_round-perm r m rounds))
        (pass-perm m ms (all_matches rounds)))
]

by_round_from-AreRounds :
    (rounds : List (ℕ × List Match)) (ms : List Match)
    → AreRounds rounds
    → AreRounds (by_round_from rounds ms)
unfolding by_round_from
by_round_from-AreRounds rounds [] h = h
by_round_from-AreRounds rounds (m ∷ ms) h =
    by_round_from-AreRounds (add_to_round (round_of m) m rounds) ms
      (add_to_round-AreRounds m rounds h)

by_round_from-perm :
    (rounds : List (ℕ × List Match)) (ms : List Match)
    → Perm (all_matches (by_round_from rounds ms)) (all_matches rounds ++ ms)
unfolding by_round_from
by_round_from-perm rounds [] = rw (append-nil (all_matches rounds)) (Perm.refl (all_matches rounds))
by_round_from-perm rounds (m ∷ ms) =
    Perm.trans (by_round_from-perm (add_to_round (round_of m) m rounds) ms) (
      Perm.trans ((perm-append_right_iff ms).1 (add_to_round-perm (round_of m) m rounds))
        (Perm.symm (pass-perm m (all_matches rounds) ms)))

-- Grouping a draw by rounds keeps every match, as often as the draw has it, and puts each under the
-- number of its own round.
pub by_round-AreRounds :
    (ms : List Match) → AreRounds (by_round ms) × Perm (all_matches (by_round ms)) ms
unfolding by_round
by_round-AreRounds ms = (by_round_from-AreRounds [] ms tt, by_round_from-perm [] ms)
