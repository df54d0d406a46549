-- ===== src/Base/Exec.antt =====
-- Asynchronous functions that read and write the browser's state and may throw. What was done
-- before a throw stays done, so the state comes back beside the error too.
use tkd_chb.Base.{ℕ, ◌≡◌, refl, ◌⊎◌, inl, inr, String, Option, none, List, []}
use tkd_chb.Base.Js.{Js, undefined}

-- One failed candidate of `tryFirst`.
pub record Attempt : Type 0 where
  pub url : String
  pub status : Option ℕ
  pub message : String

-- An `Error` with the properties that the program sets on it.
pub record Failure : Type 0 where
  pub message : String
  pub code : Option String
  pub status : Option ℕ
  pub payload : Js
  pub tried : List Attempt

-- new Error(message)
abbrev pub error : String → Failure
error m = record { message = m; code = none; status = none; payload = undefined; tried = [] }

pub data Result {ℓ} (A : Type ℓ) : Type ℓ where
  ok : A → Result A
  err : Failure → Result A

abbrev pub Exec {ℓ} : Type ℓ → Type ℓ → Type ℓ
Exec S A = S → Result A × S

module _ {ℓ} {S A : Type ℓ} where
  abbrev pub pure : A → Exec S A
  pure a s = (ok a, s)

  abbrev pub throw : Failure → Exec S A
  throw e s = (err e, s)

module _ {ℓ} {S A B : Type ℓ} where
  abbrev pub continue : Result A → (A → Exec S B) → Exec S B
  continue (ok a) f s = f a s
  continue (err e) f s = (err e, s)

  infixl 10 ◌>>=◌ ◌>>◌
  abbrev pub ◌>>=◌ : Exec S A → (A → Exec S B) → Exec S B
  ◌>>=◌ m f s = let (r, s') = m s in continue r f s'

  abbrev pub ◌>>◌ : Exec S A → Exec S B → Exec S B
  m >> n = m >>= λ _. n

module _ {ℓ} {S A : Type ℓ} where
  abbrev pub handle : Result A → (Failure → Exec S A) → Exec S A
  handle (ok a) h s = (ok a, s)
  handle (err e) h s = h e s

  -- try { m } catch (e) { h e }
  abbrev pub catch : Exec S A → (Failure → Exec S A) → Exec S A
  catch m h s = let (r, s') = m s in handle r h s'

pub Result-cases {ℓ} :
    {A : Type ℓ} (r : Result A) → ((a : A) × (r ≡ ok a)) ⊎ ((e : Failure) × (r ≡ err e))
Result-cases (ok a) = inl (a, refl)
Result-cases (err e) = inr (e, refl)
