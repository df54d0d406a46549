-- ===== src/Listing/Matches.antt =====
-- MatchesSection.js: the roles of the user, and what a click on a competition does.
use Prim.Native.Char.{code}
use Prim.Native.String.{◌++◌ as ◌<>◌}
use tkd_chb.Base.{
  ◌≡◌, refl, inl, inr, ap, ◌∙◌, String, ◌==◌, Bool, true, false, not, ◌&&◌, ◌||◌, List, [], ◌∷◌,
  ◌++◌, any, eqb, if◌then◌else◌, Bool-cases,
}
use tkd_chb.Base.Text.{to_lower_case, includes, is_space, split_words, encode_uri_component}
use tkd_chb.Base.Js.{Js, null, str, truthy, or_else, get, to_text}
use tkd_chb.Storage.{Storage}
use tkd_chb.Session.{user_role}

abbrev pub has_role : String → List String → Bool
has_role r roles = any (λ x. x == r) roles

unfoldable pub without : String → List String → List String
without r [] = []
without r (x ∷ xs) = let rest = without r xs in if x == r then rest else x ∷ rest

abbrev pub add_role : String → List String → List String
add_role r roles = if has_role r roles then roles else roles ++ r ∷ []

-- getUserRoles(); a role that stands twice stays so, since the roles are only searched
unfoldable pub get_user_roles : Storage → List String
get_user_roles s =
    let parts = split_words (λ c. eqb (code c) 44 || is_space c) (to_lower_case (user_role s)) in
    if has_role "both" parts
    then without "both" (add_role "coach" (add_role "player" parts))
    else parts

-- roleForPath(roles)
unfoldable pub role_for_path : List String → String
role_for_path roles =
    if has_role "coach" roles
    then "coach"
    else if has_role "referee" roles
    then "referee"
    else if has_role "club" roles
    then "club"
    else if has_role "heyat" roles
    then "heyat"
    else if has_role "board" roles
    then "board"
    else if has_role "player" roles
    then "player"
    else "guest"

-- isClubLike(roles)
unfoldable pub any_club_like : List String → Bool
any_club_like roles =
    any (λ r. let s = to_lower_case r in s == "club" || s == "heyat" || s == "board") roles

abbrev pub style_of : Js → String
style_of comp =
    to_lower_case
      (to_text (or_else (get comp "style_display") (or_else (get comp "style") (str ""))))

-- isKyorugi(comp), isPoomsae(comp)
unfoldable pub is_kyorugi : Js → Bool
is_kyorugi comp =
    includes (style_of comp) "kyorugi"
    || includes (style_of comp) "\u{6a9}\u{6cc}\u{648}\u{631}\u{648}\u{6af}\u{6cc}"

unfoldable pub is_poomsae : Js → Bool
is_poomsae comp =
    includes (style_of comp) "poomsae"
    || includes (style_of comp) "\u{67e}\u{648}\u{645}\u{633}\u{647}"

-- storedRole
unfoldable pub stored_role : Storage → String
stored_role s =
    let raw = to_lower_case (user_role s) in
    if any (λ r. r == raw)
      ("coach" ∷ "player" ∷ "referee" ∷ "club" ∷ "heyat" ∷ "board" ∷ "both" ∷ [])
    then raw
    else "player"

pub record Section : Type 0 where
  pub show_terms : Bool
  pub selected : Js
  pub went : List String

-- pushToDetails(slug, opts)
unfoldable pub push_to_details : String → Js → Bool → Section → Section
push_to_details role slug details sec =
    let path =
      "/dashboard/"
      <> encode_uri_component role
      <> "/competitions/"
      <> encode_uri_component (to_text slug) in
    if truthy slug
    then record sec { went = sec.went ++ (if details then path <> "?view=details" else path) ∷ [] }
    else sec

-- handleDetailsClick(comp)
unfoldable pub handle_details_click : List String → String → Js → Section → Section
handle_details_click roles role comp sec =
    let coach_like = has_role "coach" roles || has_role "both" roles in
    let ref_like = has_role "referee" roles || any_club_like roles in
    if not (truthy (get comp "public_id"))
    then sec
    else if coach_like && (is_kyorugi comp || is_poomsae comp)
    then record sec { selected = comp; show_terms = true }
    else push_to_details role (get comp "public_id") ref_like sec

-- handleModalCancel()
unfoldable pub handle_modal_cancel : Section → Section
handle_modal_cancel sec = record sec { show_terms = false; selected = null }

-- handleModalDone(slugFromChild)
unfoldable pub handle_modal_done : String → Js → Section → Section
handle_modal_done role slug sec =
    push_to_details role (or_else slug (get sec.selected "public_id")) false
      (handle_modal_cancel sec)

-- the end of the terms, where they are shown
abbrev pub after_terms : String → Section → Section
after_terms role sec = if sec.show_terms then handle_modal_done role null sec else sec

-- One navigation, and the terms are closed.
abbrev pub WentOnce : Section → Section → Type 0
WentOnce sec sec' =
    (path : String) × (sec'.went ≡ sec.went ++ path ∷ []) × (sec'.show_terms ≡ false)

push_to_details-WentOnce :
    (role : String) (slug : Js) (details : Bool) (sec : Section)
    → truthy slug ≡ true
    → sec.show_terms ≡ false
    → WentOnce sec (push_to_details role slug details sec)
unfolding push_to_details
push_to_details-WentOnce role slug details sec there closed = rw there (_, refl, closed)

after_terms-closed :
    (role : String) (sec sec' : Section)
    → sec'.show_terms ≡ false
    → WentOnce sec sec'
    → WentOnce sec (after_terms role sec')
after_terms-closed role sec sec' closed (path, went, shut) = (
  path,
  ap (λ x. x.went) (same sec' closed) ∙ went,
  ap (λ x. x.show_terms) (same sec' closed) ∙ shut,
)
  where
    unless : (b : Bool) (x y : Section) → b ≡ false → (if b then x else y) ≡ y
    unless b x y e = rw e

    same : (s : Section) → s.show_terms ≡ false → after_terms role s ≡ s
    same s e = unless s.show_terms _ s e

-- A click on a competition that has an id, and then the end of the terms, if the click shows them,
-- navigates exactly once, whatever the roles, and leaves the terms closed.
pub handle_details_click-WentOnce :
    (roles : List String) (role : String) (comp : Js) (sec : Section)
    → truthy (get comp "public_id") ≡ true
    → sec.show_terms ≡ false
    → WentOnce sec (after_terms role (handle_details_click roles role comp sec))
unfolding handle_details_click handle_modal_done handle_modal_cancel
handle_details_click-WentOnce roles role comp sec there closed =
    elim (Bool-cases
      ((has_role "coach" roles || has_role "both" roles) && (is_kyorugi comp || is_poomsae comp))) [
        | inl terms ↦
            rw (there, terms)
              (push_to_details-WentOnce role (get comp "public_id") false
                (record sec { show_terms = false; selected = null }) there refl)
        | inr direct ↦
            rw (there, direct)
              (let went =
                  push_to_details-WentOnce role (get comp "public_id")
                    (has_role "referee" roles || any_club_like roles) sec there closed in
                after_terms-closed role sec
                  (push_to_details role (get comp "public_id")
                    (has_role "referee" roles || any_club_like roles) sec)
                  went.2 went)
      ]
