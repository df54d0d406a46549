-- ===== src/Details/Eligibility/Laws.antt =====
-- What becomes of a player's eligibility once the form has filled in the locked profile.
use tkd_chb.Base.{◌≡◌, ◌≢◌, ◌∙◌, String, ◌==◌, eq_iff, Bool, true, false, Option, some, arith}
use tkd_chb.Base.Js.{Js, null, get, truthy, to_text}
use tkd_chb.Details.Eligibility.{
  eligibility, extract_player, first_player, competition_gender, norm_gender, told_or, judged,
}
use tkd_chb.Details.Locked.Laws.{seven, no_profile, profile, Profile-of}
use tkd_chb.Details.Locked.{text_fields, normalize_locked_profile}

-- The server does not tell, by a truth value, whether the player is eligible.
abbrev pub Untold : Js → Type 0
Untold comp = (r : Option Bool) → told_or (get comp "user_eligible_self") r ≡ r

player_of_profile :
    (comp : Js) (a b c d e f g : String)
    → e ≢ ""
    → extract_player comp (text_fields (seven a b c d e f g)) ≡ record { belt = e; gender = "" }
unfolding extract_player first_player norm_gender to_text
player_of_profile comp a b c d e f g given = ground (arith, eq_iff e "")

not_for_all :
    (comp : Js) (e : String)
    → (competition_gender comp == "both") ≡ false
    → e ≢ ""
    → judged comp (record { belt = e; gender = "" }) ≡ some false
not_for_all comp e one belt = ground (arith, eq_iff e "")

-- A competition for one gender, where the server does not tell who is eligible: whatever the
-- player's gender, once the form has filled in the locked profile with a belt, the page holds the
-- player for not eligible, since the locked profile has no gender.
pub eligibility-after_prefill :
    (comp src : Js)
    → Untold comp
    → (competition_gender comp == "both") ≡ false
    → truthy (get (normalize_locked_profile src) "belt") ≡ true
    → eligibility comp (normalize_locked_profile src) ≡ some false
unfolding eligibility
eligibility-after_prefill comp src untold one belted = elim (Profile-of src) [
  | no_profile absent ↦ let bad : truthy (get null "belt") ≡ true = rw absent at belted in cc
  | profile a b c d e f g full there ↦
      let belt : e ≢ "" = ground (arith, eq_iff e "", rw there at belted) in
      rw there
        (untold _ ∙ rw (player_of_profile comp a b c d e f g belt) (not_for_all comp e one belt))
]
