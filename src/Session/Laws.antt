-- ===== src/Session/Laws.antt =====
-- Which token is found, and what a logout leaves.
use tkd_chb.Base.{
  ◌≡◌, ◌↔◌, refl, inl, inr, String, Bool, true, false, none, some, List, [], ◌∷◌, arith,
  Option-cases, Bool-cases, All,
}
use tkd_chb.Storage.{Storage, get_item}
use tkd_chb.Session.{is_full, first_item, api_keys, api_token}

-- The entry of `k` is missing, or its text is refused.
abbrev pub IsRejected : (String → Bool) → Storage → String → Type 0
IsRejected p s k = (v : String) → get_item s k ≡ some v → p v ≡ false

-- `v` is the text of the first key whose entry is accepted.
pub data Picks (p : String → Bool) (s : Storage) : List String → String → Type 0 where
  here :
      {k v : String} {ks : List String} → get_item s k ≡ some v → p v ≡ true → Picks p s (k ∷ ks) v
  later :
      {k v : String} {ks : List String} → IsRejected p s k → Picks p s ks v → Picks p s (k ∷ ks) v

module _ (p : String → Bool) (s : Storage) where
  pub first_item-Picks :
      (ks : List String) (v : String) → first_item p ks s ≡ some v → Picks p s ks v
  unfolding first_item
  first_item-Picks [] v e = cc
  first_item-Picks (k ∷ ks) v e = elim (Option-cases (get_item s k)) [
    | inl missing ↦ later (λ u h. cc (h, missing)) (first_item-Picks ks v (ground arith))
    | inr (u, found) ↦ elim (Bool-cases (p u)) [
      | inl good ↦ here (ground arith) (ground arith)
      | inr bad ↦ later (λ t h. ground arith) (first_item-Picks ks v (ground arith))
    ]
  ]

  pub Picks-first_item :
      {ks : List String} {v : String} → Picks p s ks v → first_item p ks s ≡ some v
  unfolding first_item
  Picks-first_item (here found good) = rw found (rw good refl)
  Picks-first_item (later {k} rejected rest) = elim (Option-cases (get_item s k)) [
    | inl missing ↦ rw missing (Picks-first_item rest)
    | inr (u, found) ↦ rw found (rw (rejected u found) (Picks-first_item rest))
  ]

  pub first_item-eq-none : (ks : List String) → All (IsRejected p s) ks → first_item p ks s ≡ none
  unfolding first_item
  first_item-eq-none [] h = refl
  first_item-eq-none (k ∷ ks) (h, hs) = elim (Option-cases (get_item s k)) [
    | inl missing ↦ rw missing (first_item-eq-none ks hs)
    | inr (u, found) ↦ rw found (rw (h u found) (first_item-eq-none ks hs))
  ]

  pub None-first_item : (ks : List String) → first_item p ks s ≡ none → All (IsRejected p s) ks
  unfolding first_item
  None-first_item [] e = tt
  None-first_item (k ∷ ks) e = elim (Option-cases (get_item s k)) [
    | inl missing ↦ (λ u h. cc (h, missing), None-first_item ks (ground arith))
    | inr (u, found) ↦ elim (Bool-cases (p u)) [
      | inl good ↦ absurd (ground arith)
      | inr bad ↦ (λ t h. ground arith, None-first_item ks (ground arith))
    ]
  ]

-- The API sends `v` as its bearer token exactly when `v` is the first full entry among coach_token,
-- both_token, the token of the stored role, access_token and token.
pub api_token_iff :
    (s : Storage) (v : String) → (api_token s ≡ some v) ↔ Picks is_full s (api_keys s) v
unfolding api_token
api_token_iff s v = (first_item-Picks is_full s (api_keys s) v, Picks-first_item is_full s)
