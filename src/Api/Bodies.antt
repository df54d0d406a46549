-- ===== src/Api/Bodies.antt =====
-- What is sent: `compact`, and the body of a registration.
use tkd_chb.Base.{
  ◌≡◌, refl, ap, arith, String, ◌==◌, eq_iff, true, false, All, if◌then◌else◌, Bool-cases, inl, inr,
}
use tkd_chb.Base.Js.{undefined, obj, Fields, end, field, entries, lookup, get}
use tkd_chb.Api.Values.{is_sent, compact}

abbrev IsUnused : String → Fields → Type 0
IsUnused k end = Unit
IsUnused k (field j v fs) = ((j == k) ≡ false) × IsUnused k fs

-- The keys of an object are distinct, as JavaScript has it.
abbrev pub HasDistinctKeys : Fields → Type 0
HasDistinctKeys end = Unit
HasDistinctKeys (field k v fs) = IsUnused k fs × HasDistinctKeys fs

lookup-unused :
    (k : String) (fs : Fields) → IsUnused k fs → lookup (entries (compact fs)) k ≡ undefined
unfolding compact
lookup-unused k end h = refl
lookup-unused k (field j v fs) (ne, h) = ground (arith, lookup-unused k fs h)

-- `compact` keeps exactly the entries that are sent: reading a key gives its value where that is
-- neither undefined nor null nor a blank text, and undefined otherwise.
pub get-compact :
    (fs : Fields) (k : String)
    → HasDistinctKeys fs
    → get (obj (compact fs)) k ≡ (if is_sent (get (obj fs) k) then get (obj fs) k else undefined)
unfolding compact
get-compact end k h = refl
get-compact (field j v fs) k (unused, h) = elim (Bool-cases (j == k)) [
  | inl same ↦
      let none_left = lookup-unused k fs (rw ((eq_iff j k).0 same) at unused) in
      ground (arith, none_left)
  | inr other ↦ ground (arith, get-compact fs k h)
]

compact_of_sent : (fs : Fields) → All (λ e. is_sent e.1 ≡ true) (entries fs) → compact fs ≡ fs
unfolding compact
compact_of_sent end h = refl
compact_of_sent (field k v fs) (s, h) = rw s (ap (field k v) (compact_of_sent fs h))

All-compact : (fs : Fields) → All (λ e. is_sent e.1 ≡ true) (entries (compact fs))
unfolding compact
All-compact end = tt
All-compact (field k v fs) = elim (Bool-cases (is_sent v)) [
  | inl s ↦ rw s (s, All-compact fs)
  | inr n ↦ rw n (All-compact fs)
]

-- Compacting twice is compacting once.
pub compact_idem : (fs : Fields) → compact (compact fs) ≡ compact fs
compact_idem fs = compact_of_sent (compact fs) (All-compact fs)
