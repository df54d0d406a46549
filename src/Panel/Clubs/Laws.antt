-- ===== src/Panel/Clubs/Laws.antt =====
-- What a coach's choice of clubs keeps, and what its list shows.
use mathlib.Core.List.{Perm, perm_middle}
use mathlib.Core.List.Perm
use tkd_chb.Base.{
  ◌≡◌, refl, ℕ, ◌≤◌, Bool, true, false, not, ◌||◌, List, [], ◌∷◌, ◌++◌, length, length-append, ltb,
  eqb, arith, Bool-cases, inl, inr, All,
}
use tkd_chb.Base.Js.{Js}
use tkd_chb.Panel.{id_number, has_id, without_id, keep}
use tkd_chb.Panel.Clubs.{Choice, clubs_sorted, toggle_club}

-- No id stands twice.
abbrev pub Unique : List ℕ → Type 0
Unique [] = Unit
Unique (n ∷ ns) = (has_id n ns ≡ false) × Unique ns

has_id-append : (n : ℕ) (ns ms : List ℕ) → has_id n (ns ++ ms) ≡ (has_id n ns || has_id n ms)
has_id-append n [] ms = refl
has_id-append n (m ∷ ns) ms = ground (arith, has_id-append n ns ms)

append-Unique : (n : ℕ) (ns : List ℕ) → has_id n ns ≡ false → Unique ns → Unique (ns ++ n ∷ [])
append-Unique n [] h u = (refl, tt)
append-Unique n (m ∷ ns) h (new, u) =
    (rw (has_id-append m ns (n ∷ [])) (ground arith), append-Unique n ns (ground arith) u)

has_id-without_id :
    (n k : ℕ) (ns : List ℕ) → has_id n ns ≡ false → has_id n (without_id k ns) ≡ false
unfolding without_id
has_id-without_id n k [] h = refl
has_id-without_id n k (m ∷ ns) h = ground (arith, has_id-without_id n k ns)

without_id-Unique : (k : ℕ) (ns : List ℕ) → Unique ns → Unique (without_id k ns)
unfolding without_id
without_id-Unique k [] u = tt
without_id-Unique k (m ∷ ns) (new, u) = elim (Bool-cases (eqb m k)) [
  | inl same ↦ rw same (without_id-Unique k ns u)
  | inr other ↦ rw other (has_id-without_id m k ns new, without_id-Unique k ns u)
]

length-without_id : (k : ℕ) (ns : List ℕ) → length (without_id k ns) ≤ length ns
unfolding without_id
length-without_id k [] = omega arith
length-without_id k (m ∷ ns) = ground (arith, length-without_id k ns)

-- Up to three clubs are chosen, and none of them twice.
pub record IsChoice (c : Choice) : Type 0 where
  pub few : length c.selected_clubs ≤ 3
  pub apart : Unique c.selected_clubs

toggle_club-IsChoice : (id : ℕ) (c : Choice) → IsChoice c → IsChoice (toggle_club id c)
unfolding toggle_club
toggle_club-IsChoice id c choice = elim (Bool-cases (has_id id c.selected_clubs)) [
  | inl chosen ↦ rw chosen (record {
    few = omega (arith, length-without_id id c.selected_clubs, choice.few);
    apart = without_id-Unique id c.selected_clubs choice.apart;
  })
  | inr free ↦ elim (Bool-cases (ltb (length c.selected_clubs) 3)) [
    | inl room ↦
        rw (free, room)
          (record {
            few = ground (arith, length-append c.selected_clubs (id ∷ []));
            apart = append-Unique id c.selected_clubs free choice.apart;
          })
    | inr full ↦ rw (free, full) (record { few = choice.few; apart = choice.apart })
  ]
]

-- the clicks on a list of clubs, one after the other
abbrev pub toggles : List ℕ → Choice → Choice
toggles [] c = c
toggles (id ∷ ids) c = toggles ids (toggle_club id c)

-- Whatever clubs are clicked, from a choice of up to three different clubs the coach always has a
-- choice of up to three different clubs.
pub toggles-IsChoice : (ids : List ℕ) (c : Choice) → IsChoice c → IsChoice (toggles ids c)
toggles-IsChoice [] c choice = choice
toggles-IsChoice (id ∷ ids) c choice =
    toggles-IsChoice ids (toggle_club id c) (toggle_club-IsChoice id c choice)

module _ (p : Js → Bool) where
  pub keep-All : (xs : List Js) → All (λ x. p x ≡ true) (keep p xs)
  unfolding keep
  keep-All [] = tt
  keep-All (x ∷ xs) = elim (Bool-cases (p x)) [
    | inl held ↦ rw held (held, keep-All xs)
    | inr left ↦ rw left (keep-All xs)
  ]

  keep-perm : (xs : List Js) → Perm (keep p xs ++ keep (λ x. not (p x)) xs) xs
  unfolding keep
  keep-perm [] = Perm.refl []
  keep-perm (x ∷ xs) = elim (Bool-cases (p x)) [
    | inl held ↦ rw held (Perm.cons x (keep-perm xs))
    | inr left ↦ rw left (
        Perm.trans (perm_middle (keep p xs) (keep (λ y. not (p y)) xs))
          (Perm.cons x (keep-perm xs)))
  ]

-- The list of clubs shows every club once, and the clubs of the coach before all the others.
pub clubs_sorted-perm :
    (mine : List ℕ) (all : List Js)
    → Perm (clubs_sorted mine all) all
      × ((own : List Js) × (others : List Js) × (clubs_sorted mine all ≡ own ++ others)
          × All (λ club. has_id (id_number club) mine ≡ true) own
          × All (λ club. not (has_id (id_number club) mine) ≡ true) others)
unfolding clubs_sorted
clubs_sorted-perm mine all =
    let own : Js → Bool = λ club. has_id (id_number club) mine in
    (
      keep-perm own all,
      (
        keep own all,
        keep (λ club. not (own club)) all,
        refl,
        keep-All own all,
        keep-All (λ club. not (own club)) all,
      ),
    )
