-- ===== src/Tables/Laws.antt =====
-- What the table of the students asks for.
use tkd_chb.Base.{
  ◌≡◌, refl, ◌∙◌, eq_refl, String, ◌==◌, Bool, true, false, ◌&&◌, ◌||◌, Option, none, some, [],
  if◌then◌else◌, arith,
}
use tkd_chb.Base.Text.Laws.{eq_other}
use tkd_chb.Profile.{keyed}
use tkd_chb.Tables.{
  Filters, Params, all_text, chosen, filled, typed_params, is_coach_role, students_params,
}

-- The value of a filter that was chosen, or typed.
abbrev pub picked : String → Option String
picked v = if v == all_text then none else some v

abbrev pub entered : String → Option String
entered v = if v == "" then none else some v

-- The filters that every table shares.
pub record AsksCommon (f : Filters) (ps : Params) : Type 0 where
  pub belt : keyed ps "belt" ≡ picked f.belt
  pub birth_from : keyed ps "birth_from" ≡ entered f.birth_from
  pub birth_to : keyed ps "birth_to" ≡ entered f.birth_to
  pub search : keyed ps "search" ≡ entered f.search

-- The value of a filter is asked for only by a role that has it.
abbrev pub for_role : Bool → Option String → Option String
for_role b v = if b then v else none

pub record AsksStudents (role : String) (f : Filters) (ps : Params) : Type 0 where
  pub common : AsksCommon f ps
  pub coach : keyed ps "coach" ≡ for_role (role == "heyat" || role == "club") (picked f.coach)
  pub club :
      keyed ps "club"
      ≡ (if role == "heyat" then picked f.club else for_role (is_coach_role role) (picked f.coach))

chosen_other :
    (k v j : String) (ps : Params) → (k == j) ≡ false → keyed (chosen k v ps) j ≡ keyed ps j
chosen_other k v j ps h = ground arith

chosen_same : (k v : String) (ps : Params) → keyed ps k ≡ none → keyed (chosen k v ps) k ≡ picked v
chosen_same k v ps h = ground (arith, eq_refl k)

filled_other :
    (k v j : String) (ps : Params) → (k == j) ≡ false → keyed (filled k v ps) j ≡ keyed ps j
filled_other k v j ps h = ground arith

filled_same : (k v : String) (ps : Params) → keyed ps k ≡ none → keyed (filled k v ps) k ≡ entered v
filled_same k v ps h = ground (arith, eq_refl k)

module _ (f : Filters) where
  abbrev common : Params
  common = chosen "belt" f.belt (typed_params f)

  abbrev last : Params
  last = filled "search" f.search []

  abbrev dates : Params
  dates = filled "birth_to" f.birth_to last

  -- A key that none of the shared filters has.
  common_other :
      (j : String)
      → ("belt" == j) ≡ false
      → ("birth_from" == j) ≡ false
      → ("birth_to" == j) ≡ false
      → ("search" == j) ≡ false
      → keyed common j ≡ none
  common_other j b from to s =
      chosen_other "belt" f.belt j (typed_params f) b
      ∙ filled_other "birth_from" f.birth_from j dates from
      ∙ filled_other "birth_to" f.birth_to j last to
      ∙ filled_other "search" f.search j [] s

  common-Asks : AsksCommon f common
  common-Asks = record {
    belt = chosen_same "belt" f.belt (typed_params f) (
        filled_other "birth_from" f.birth_from "belt" dates refl
        ∙ filled_other "birth_to" f.birth_to "belt" last refl
        ∙ filled_other "search" f.search "belt" [] refl);
    birth_from =
        chosen_other "belt" f.belt "birth_from" (typed_params f) refl
        ∙ filled_same "birth_from" f.birth_from dates (
            filled_other "birth_to" f.birth_to "birth_from" last refl
            ∙ filled_other "search" f.search "birth_from" [] refl);
    birth_to =
        chosen_other "belt" f.belt "birth_to" (typed_params f) refl
        ∙ filled_other "birth_from" f.birth_from "birth_to" dates refl
        ∙ filled_same "birth_to" f.birth_to last
            (filled_other "search" f.search "birth_to" [] refl);
    search =
        chosen_other "belt" f.belt "search" (typed_params f) refl
        ∙ filled_other "birth_from" f.birth_from "search" dates refl
        ∙ filled_other "birth_to" f.birth_to "search" last refl
        ∙ filled_same "search" f.search [] refl;
  }

  -- One more filter with a key of its own.
  chosen-AsksCommon :
      (k v : String) (ps : Params)
      → (k == "belt" || k == "birth_from" || k == "birth_to" || k == "search") ≡ false
      → AsksCommon f ps
      → AsksCommon f (chosen k v ps)
  chosen-AsksCommon k v ps h a = record {
    belt = chosen_other k v "belt" ps (ground arith) ∙ a.belt;
    birth_from = chosen_other k v "birth_from" ps (ground arith) ∙ a.birth_from;
    birth_to = chosen_other k v "birth_to" ps (ground arith) ∙ a.birth_to;
    search = chosen_other k v "search" ps (ground arith) ∙ a.search;
  }

  no_coach : keyed common "coach" ≡ none
  no_coach = common_other "coach" refl refl refl refl

  no_club : keyed common "club" ≡ none
  no_club = common_other "club" refl refl refl refl

  query : Bool → Bool → Bool → Params
  query heyat club coach =
      if heyat
      then chosen "coach" f.coach (chosen "club" f.club common)
      else if club
      then chosen "coach" f.coach common
      else if coach
      then chosen "club" f.coach common
      else common

  record AsksQuery (heyat club coach : Bool) (ps : Params) : Type 0 where
    shared : AsksCommon f ps
    by_coach : keyed ps "coach" ≡ for_role (heyat || club) (picked f.coach)
    by_club : keyed ps "club" ≡ (if heyat then picked f.club else for_role coach (picked f.coach))

  query-Asks :
      (heyat club coach : Bool)
      → (club && coach) ≡ false
      → AsksQuery heyat club coach (query heyat club coach)
  unfolding query
  query-Asks true club coach h = record {
    shared =
        chosen-AsksCommon "coach" f.coach (chosen "club" f.club common) refl
          (chosen-AsksCommon "club" f.club common refl common-Asks);
    by_coach =
        chosen_same "coach" f.coach (chosen "club" f.club common)
          (chosen_other "club" f.club "coach" common refl ∙ no_coach);
    by_club =
        chosen_other "coach" f.coach "club" (chosen "club" f.club common) refl
        ∙ chosen_same "club" f.club common no_club;
  }
  query-Asks false true true h = absurd (ground arith)
  query-Asks false true false h = record {
    shared = chosen-AsksCommon "coach" f.coach common refl common-Asks;
    by_coach = chosen_same "coach" f.coach common no_coach;
    by_club = chosen_other "coach" f.coach "club" common refl ∙ no_club;
  }
  query-Asks false false true h = record {
    shared = chosen-AsksCommon "club" f.coach common refl common-Asks;
    by_coach = chosen_other "club" f.coach "coach" common refl ∙ no_coach;
    by_club = chosen_same "club" f.coach common no_club;
  }
  query-Asks false false false h = record {
    shared = common-Asks;
    by_coach = no_coach;
    by_club = no_club;
  }

one_role : (role : String) → (role == "club" && is_coach_role role) ≡ false
one_role role = ground (arith, eq_other role "club" "coach" refl, eq_other role "club" "both" refl)

-- The table of the students asks by each filter exactly where it is chosen or typed: by the coach for a
-- board or a club, by the club for a board, and for a coach by the club that stands in the filter of
-- the coach.
pub students_params-Asks :
    (role : String) (f : Filters) → AsksStudents role f (students_params role f)
unfolding students_params query
students_params-Asks role f =
    let asks =
      query-Asks f (role == "heyat") (role == "club") (is_coach_role role) (one_role role) in
    record { common = asks.shared; coach = asks.by_coach; club = asks.by_club }
