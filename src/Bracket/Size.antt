-- ===== src/Bracket/Size.antt =====
-- How a draw of a declared size is placed on the columns of the card.
use native.Mathlib.Nat.{pow-suc}
use tkd_chb.Base.{
  ◌≡◌, refl, ap, ◌⊎◌, inl, inr, ℕ, zero, suc, ◌+◌, ◌-◌, ◌^◌, ◌<◌, ◌≤◌, none, some, ltb, arith,
  Bool-cases, ltb→lt, lt→ltb,
}
use tkd_chb.Bracket.Board.{
  matches_in, rounds_from, at_least_one, positive, rounds_count, FirstRound, first_from,
  first_round_info,
}

-- `n` is the first count from `c` on whose power of two reaches the size.
abbrev IsFirst : ℕ → ℕ → ℕ → Type 0
IsFirst size c n = (size ≤ 2 ^ n) × (c ≤ n) × ((n ≡ c) ⊎ (2 ^ (n - 1) < size))

rounds_from-IsFirst :
    (f size c : ℕ)
    → size ≤ 2 ^ (c + f)
    → (n : ℕ) × (rounds_from (suc f) size c ≡ some n) × IsFirst size c n
unfolding rounds_from
rounds_from-IsFirst zero size c h =
    let e : c + 0 ≡ c = omega arith in
    let enough = rw e at h in (c, ground arith, (enough, omega arith, inl refl))
rounds_from-IsFirst (suc f) size c h = elim (Bool-cases (ltb (2 ^ c) size)) [
  | inl less ↦
      let e : c + suc f ≡ c + 1 + f = omega arith in
      let (n, found, (reached, later, first)) = rounds_from-IsFirst f size (c + 1) (rw e at h) in
      (n, rw less found, (reached, omega arith, inr (grow n first (ltb→lt _ _ less))))
  | inr reached ↦ (c, rw reached refl, (ground arith, omega arith, inl refl))
]
  where
    shift : (k : ℕ) → k + 1 - 1 ≡ k
    shift k = omega arith

    grow : (n : ℕ) → (n ≡ c + 1) ⊎ (2 ^ (n - 1) < size) → 2 ^ c < size → 2 ^ (n - 1) < size
    grow n (inr p) less = p
    grow n (inl e) less = rw (ap (λ (k : ℕ). k - 1) e) (rw (shift c) less)

pow-le : (c f : ℕ) → 2 ^ c ≤ 2 ^ (c + f)
pow-le c zero = let e : c + 0 ≡ c = omega arith in rw e (omega arith)
pow-le c (suc f) =
    let e : c + suc f ≡ suc (c + f) = omega arith in
    rw e (omega (arith, pow-le c f, pow-suc 2 (c + f)))

rounds_from-none : (f size c : ℕ) → (2 ^ (c + f) < size) → rounds_from (suc f) size c ≡ none
unfolding rounds_from
rounds_from-none zero size c h = let e : c + 0 ≡ c = omega arith in rw (lt→ltb _ _ (rw e at h)) refl
rounds_from-none (suc f) size c h =
    let e : c + suc f ≡ c + 1 + f = omega arith in
    let less : 2 ^ c < size = omega (arith, pow-le c (suc f)) in
    rw (lt→ltb _ _ less) (rounds_from-none f size (c + 1) (rw e at h))

-- The least positive number of rounds whose power of two reaches the declared size.
abbrev pub IsRounds : ℕ → ℕ → Type 0
IsRounds declared n = (1 ≤ n) × (declared ≤ 2 ^ n) × ((n ≡ 1) ⊎ (2 ^ (n - 1) < declared))

IsRounds-positive :
    (declared n : ℕ) → IsFirst (at_least_one declared) 0 n → IsRounds declared (at_least_one n)
unfolding at_least_one
IsRounds-positive declared zero (reached, _, _) = (omega arith, ground arith, inl refl)
IsRounds-positive declared (suc m) (reached, _, inl e) = absurd (omega arith)
IsRounds-positive declared (suc m) (reached, _, inr less) =
    let e : suc m - 1 ≡ m = omega arith in
    let below = rw e at less in
    let one = pow-le 0 m in
    let f : 0 + m ≡ m = omega arith in
    let some_match = rw f at one in
    let same : at_least_one (suc m) ≡ suc m = ground arith in
    rw same (omega arith, ground arith, inr (rw e (ground arith)))

-- For a declared size up to 2^30 the loop for the number of rounds ends, and gives the least
-- positive number of rounds whose power of two reaches the size.
pub rounds_count_total :
    (declared : ℕ)
    → declared ≤ 2 ^ 30
    → (n : ℕ) × (rounds_count declared ≡ some n) × IsRounds declared n
unfolding rounds_count
rounds_count_total declared h =
    let (n, found, first) = rounds_from-IsFirst 30 (at_least_one declared) 0 (within declared h) in
    (at_least_one n, ap positive found, IsRounds-positive declared n first)
  where
    within : (d : ℕ) → d ≤ 2 ^ 30 → at_least_one d ≤ 2 ^ 30
    within d k = unfold at_least_one in ground arith

-- A card shows the draws of up to 32 players whole: the first round is the round 1, in the column
-- where the fifth column is the final, and its inputs hold all players.
pub first_round_info_whole :
    (rounds : ℕ)
    → 1 ≤ rounds
    → rounds ≤ 5
    → first_round_info rounds ≡ some (record { r = 1; vr = 6 - rounds; count = 2 ^ (rounds - 1) })
unfolding first_round_info
first_round_info_whole zero h k = elim h [ ]
first_round_info_whole (suc zero) h k = refl
first_round_info_whole (suc (suc zero)) h k = refl
first_round_info_whole (suc (suc (suc zero))) h k = refl
first_round_info_whole (suc (suc (suc (suc zero)))) h k = refl
first_round_info_whole (suc (suc (suc (suc (suc zero))))) h k = refl
first_round_info_whole (suc (suc (suc (suc (suc (suc n)))))) h k = absurd (omega arith)

-- Of any first round that is found: it is in the column of its round, and counts the matches of
-- that column, of which there are some.
pub record IsPlaced (rounds : ℕ) (info : FirstRound) : Type 0 where
  pub column : info.vr ≡ info.r + 5 - rounds
  pub counted : info.count ≡ matches_in info.vr
  pub some_match : 0 < matches_in info.vr

first_from-IsPlaced :
    (f rounds r : ℕ) (info : FirstRound) → first_from f rounds r ≡ some info → IsPlaced rounds info
unfolding first_from
first_from-IsPlaced zero rounds r info e = cc
first_from-IsPlaced (suc f) rounds r info e =
    elim (Bool-cases (ltb 0 (matches_in (r + 5 - rounds)))) [
      | inl here ↦
          let found = rw here at e in
          record { column = ground arith; counted = ground arith; some_match = ground arith }
      | inr next ↦ first_from-IsPlaced f rounds (r + 1) info (rw next at e)
    ]

pub first_round_info-IsPlaced :
    (rounds : ℕ) (info : FirstRound) → first_round_info rounds ≡ some info → IsPlaced rounds info
unfolding first_round_info
first_round_info-IsPlaced rounds info e = first_from-IsPlaced 5 rounds 1 info e
