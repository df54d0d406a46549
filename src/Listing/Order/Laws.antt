-- ===== src/Listing/Order/Laws.antt =====
-- The list is in order and complete, and its errors are never seen.
use mathlib.Core.List.{Perm}
use tkd_chb.Base.{
  ◌≡◌, refl, sym, ap, ◌∙◌, ℕ, ◌<◌, ◌≤◌, String, true, false, not, ◌&&◌, ◌||◌, Option, none, some,
  List, [], ◌∷◌, All, ltb, leb, arith, Bool-cases, inl, inr,
}
use tkd_chb.Base.Sort.Laws.{Preorder, IsSorted, sort_by-IsSorted, sort_by-perm}
use tkd_chb.Base.Js.{Js}
use tkd_chb.Base.Exec.{Result, ok, err, handle, pure}
use tkd_chb.Net.{Server, World}
use tkd_chb.Api.Endpoints.{get_competitions_for_role, get_kyorugi_list_from_dashboard}
use tkd_chb.Listing.Matches.{any_club_like}
use tkd_chb.Listing.Order.{
  get_time, id_of, time_before, stands_before, received_matches, load_matches,
}

before_total :
    (ta tb : Option ℕ) (a b : ℕ)
    → time_before tb ta || not (time_before ta tb) && leb b a ≡ false
    → time_before ta tb || not (time_before tb ta) && leb a b ≡ true
before_total none none a b h = ground arith
before_total none (some t) a b h = ground arith
before_total (some s) none a b h = ground arith
before_total (some s) (some t) a b h = ground arith

before_transitive :
    (ta tb tc : Option ℕ) (a b c : ℕ)
    → time_before tb ta || not (time_before ta tb) && leb b a ≡ true
    → time_before tc tb || not (time_before tb tc) && leb c b ≡ true
    → time_before tc ta || not (time_before ta tc) && leb c a ≡ true
before_transitive ta tb tc a b c h k = ground arith

stands_before-Preorder : (parse : String → Option ℕ) → Preorder (stands_before parse)
unfolding stands_before
stands_before-Preorder parse = record {
  total = λ x y. before_total (get_time parse x) (get_time parse y) (id_of x) (id_of y);
  transitive = λ x y z.
      before_transitive (get_time parse x) (get_time parse y) (get_time parse z) (id_of x) (id_of y)
        (id_of z);
}

-- Why one competition stands before another: its time is later, only it has a time, or the times are
-- the same, or both missing, and its id is not smaller.
pub data StandsFirst (parse : String → Option ℕ) (x y : Js) : Type 0 where
  later :
      (s t : ℕ)
      → get_time parse x ≡ some s
      → get_time parse y ≡ some t
      → t < s
      → StandsFirst parse x y
  timed : (s : ℕ) → get_time parse x ≡ some s → get_time parse y ≡ none → StandsFirst parse x y
  same : get_time parse x ≡ get_time parse y → id_of y ≤ id_of x → StandsFirst parse x y

-- Each competition stands before all that come after it.
abbrev pub NewestFirst : (String → Option ℕ) → List Js → Type 0
NewestFirst parse [] = Unit
NewestFirst parse (x ∷ xs) = All (StandsFirst parse x) xs × NewestFirst parse xs

stands_before-StandsFirst :
    (parse : String → Option ℕ) (x y : Js) → stands_before parse x y ≡ true → StandsFirst parse x y
unfolding stands_before
stands_before-StandsFirst parse x y h = by_times (get_time parse x) (get_time parse y) refl refl h
  where
    by_times :
        (s t : Option ℕ)
        → get_time parse x ≡ s
        → get_time parse y ≡ t
        → time_before t s || not (time_before s t) && leb (id_of y) (id_of x) ≡ true
        → StandsFirst parse x y
    by_times none none p q k = same (p ∙ sym q) (ground arith)
    by_times none (some t) p q k = absurd (ground arith)
    by_times (some s) none p q k = timed s p q
    by_times (some s) (some t) p q k = elim (Bool-cases (ltb t s)) [
      | inl late ↦ later s t p q (ground arith)
      | inr early ↦
          let equal : s ≡ t = ground arith in same (p ∙ ap some equal ∙ sym q) (ground arith)
    ]

IsSorted-NewestFirst :
    (parse : String → Option ℕ) (xs : List Js)
    → IsSorted (stands_before parse) xs
    → NewestFirst parse xs
IsSorted-NewestFirst parse [] h = tt
IsSorted-NewestFirst parse (x ∷ xs) (first, rest) =
    (all_first xs first, IsSorted-NewestFirst parse xs rest)
  where
    all_first :
        (ys : List Js) → All (λ y. stands_before parse x y ≡ true) ys → All (StandsFirst parse x) ys
    all_first [] h = tt
    all_first (y ∷ ys) (here, others) =
        (stands_before-StandsFirst parse x y here, all_first ys others)

-- The list shown is that of the server, each competition as often as there, in order: later times
-- first, those without a time last, and at one time larger ids first.
pub received_matches-NewestFirst :
    (parse : String → Option ℕ) (roles : List String) (found : List Js)
    → NewestFirst parse (received_matches parse roles (ok found)).matches
      × Perm (received_matches parse roles (ok found)).matches found
unfolding received_matches
received_matches-NewestFirst parse roles found = (
  IsSorted-NewestFirst parse _ (sort_by-IsSorted (stands_before-Preorder parse) found),
  sort_by-perm (stands_before parse) found,
)

ok_always :
    (server : Server) (base : String) (w : World)
    → (found : List Js) × ((get_competitions_for_role server base w).0 ≡ ok found)
unfolding get_competitions_for_role
ok_always server base w =
    caught (get_kyorugi_list_from_dashboard server base w).0
      (get_kyorugi_list_from_dashboard server base w).1
  where
    caught :
        (r : Result (List Js)) (w : World)
        → (found : List Js) × ((handle r (λ e. pure []) w).0 ≡ ok found)
    caught (ok found) w = (found, refl)
    caught (err e) w = ([], refl)

-- Whatever the server answers, also that the user has to log in, a user without a club's role is
-- shown no error: the client turns every failure into an empty list.
pub load_matches-no_error :
    (server : Server) (base : String) (parse : String → Option ℕ) (roles : List String) (w : World)
    → any_club_like roles ≡ false
    → (load_matches server base parse roles w).0.error ≡ ""
unfolding load_matches received_matches
load_matches-no_error server base parse roles w h =
    let (found, is_ok) = ok_always server base w in rw is_ok (rw h (ground arith))
