-- ===== src/Register/Laws.antt =====
-- The data of a form under changes.
use mathlib.Core.Path.{fun_ext}
use tkd_chb.Base.{
  ◌≡◌, refl, ◌∙◌, String, ◌==◌, eq_iff, Bool, true, false, List, [], ◌∷◌, every, not, All,
  if◌then◌else◌, arith, Bool-cases, inl, inr,
}
use tkd_chb.Register.{Entry, Form, field_of, set_entry, handle_data_change, has}

pub field_of-set_entry :
    (k : String) (v : Entry) (d : Form) (j : String)
    → field_of (set_entry k v d) j ≡ (if k == j then v else field_of d j)
unfolding set_entry
field_of-set_entry k v [] j = refl
field_of-set_entry k v ((i, w) ∷ d) j =
    ground (arith, field_of-set_entry k v d j, eq_iff i k, eq_iff i j, eq_iff k j)

-- A test of the data that does not read the field `k`.
abbrev pub Ignores : ((String → Entry) → Bool) → String → Type 0
Ignores p k = (at : String → Entry) (v : Entry) → p (λ j. if k == j then v else at j) ≡ p at

pub Ignores-set_entry :
    (p : (String → Entry) → Bool) (k : String) (v : Entry) (d : Form)
    → Ignores p k
    → p (field_of (set_entry k v d)) ≡ p (field_of d)
Ignores-set_entry p k v d h = rw (fun_ext (field_of-set_entry k v d)) (h (field_of d) v)

pub All-has {ℓ} :
    (P : String → Type ℓ) (ks : List String) {k : String} → All P ks → has k ks ≡ true → P k
All-has P [] h m = absurd (ground arith)
All-has P (j ∷ ks) {k} (here, later) m = elim (Bool-cases (j == k)) [
  | inl same ↦ rw (← (eq_iff j k).0 same) here
  | inr other ↦ All-has P ks later (ground arith)
]

-- All changed fields are among those of a step.
abbrev pub Within : List String → Form → Type 0
Within ks new = All (λ e. has e.0 ks ≡ true) new

pub Ignores-handle_data_change :
    (p : (String → Entry) → Bool) (ks : List String) (new d : Form)
    → All (Ignores p) ks
    → Within ks new
    → p (field_of (handle_data_change new d)) ≡ p (field_of d)
unfolding handle_data_change
Ignores-handle_data_change p ks [] d h w = refl
Ignores-handle_data_change p ks ((k, v) ∷ new) d h (here, later) =
    Ignores-handle_data_change p ks new (set_entry k v d) h later
    ∙ Ignores-set_entry p k v d (All-has (Ignores p) ks h here)

-- A test of the data that reads no other fields than `ks`.
abbrev pub Reads : ((String → Entry) → Bool) → List String → Type 0
Reads p ks = (at at' : String → Entry) → All (λ j. at j ≡ at' j) ks → p at ≡ p at'

changed_elsewhere :
    (k : String) (v : Entry) (at : String → Entry) (ks : List String)
    → has k ks ≡ false
    → All (λ j. (if k == j then v else at j) ≡ at j) ks
changed_elsewhere k v at [] h = tt
changed_elsewhere k v at (j ∷ ks) h =
    (ground (arith, eq_iff k j, eq_iff j k), changed_elsewhere k v at ks (ground arith))

-- Fields that a test does not read are ignored by it.
pub Reads-Ignores :
    (p : (String → Entry) → Bool) (ks changed : List String)
    → Reads p ks
    → every (λ k. not (has k ks)) changed ≡ true
    → All (Ignores p) changed
Reads-Ignores p ks [] reads h = tt
Reads-Ignores p ks (k ∷ changed) reads h = (
  λ at v. reads (λ j. if k == j then v else at j) at (changed_elsewhere k v at ks (ground arith)),
  Reads-Ignores p ks changed reads (ground arith),
)
