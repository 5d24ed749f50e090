-- ===== src/Base/Run.antt =====
-- What a call of a Go function can do: return, return an error value, panic, or end the process by
-- log.Fatal. An error is a value that the caller may go on from; the last two end the program.
use mathlib.Core.Path.{◌≡◌, refl}
use mathlib.Core.Logic.{◌⊎◌, inl, inr}
use mathlib.Core.Bool.{Bool, true, false}
use mathlib.Core.Option.{Option, none, some}
use mathlib.Core.List.{List, [], ◌∷◌}

-- The errors.New of the sources, one constructor for each text, and the errors that are passed on.
pub data GoError : Type 0 where
  invalid_forward_size invalid_forward_type : GoError
  starting_block_too_old invalid_request_size invalid_request_type : GoError
  invalid_response_size invalid_response_type : GoError
  cannot_suggest no_routing_information not_registered : GoError
  no_spendable_outputs no_output_with_enough : GoError
  -- an error that a service or a package has returned
  service_error : GoError

pub data Run {ℓ} (A : Type ℓ) : Type ℓ where
  ok : A → Run A
  err : GoError → Run A
  panic : Run A
  fatal : Run A

infixl 5 ◌>>=◌ ◌>>◌
abbrev pub ◌>>=◌ {ℓ κ} : {S : Type ℓ} {T : Type κ} → Run S → (S → Run T) → Run T
fatal >>= next = fatal
panic >>= next = panic
err e >>= next = err e
ok s >>= next = next s

abbrev pub ◌>>◌ {ℓ} : {B : Type ℓ} → Run (Unit {0}) → Run B → Run B
m >> k = m >>= λ _. k

-- A check that returns an error unless it passes.
abbrev pub require : Bool → GoError → Run (Unit {0})
require true e = ok tt
require false e = err e

-- A read that panics on a missing value (nil pointer, index out of range).
abbrev pub or_panic {ℓ} : {A : Type ℓ} → Option A → Run A
or_panic none = panic
or_panic (some a) = ok a

-- What a run of two steps that ends well did.
pub >>=-eq-ok {ℓ κ} :
    {S : Type ℓ} {T : Type κ} (first : Run S) (next : S → Run T) {t : T}
    → (first >>= next) ≡ ok t
    → (s : S) × (first ≡ ok s) × (next s ≡ ok t)
>>=-eq-ok fatal next e = cc
>>=-eq-ok panic next e = cc
>>=-eq-ok (err x) next e = cc
>>=-eq-ok (ok s) next e = (s, refl, e)

-- log.Fatal(err) on an error value, and on a failed call of a service.
abbrev pub fatal_on_error {ℓ} : {A : Type ℓ} → Run A → Run A
fatal_on_error (ok a) = ok a
fatal_on_error (err e) = fatal
fatal_on_error panic = panic
fatal_on_error fatal = fatal

abbrev pub or_fatal {ℓ} : {A : Type ℓ} → Option A → Run A
or_fatal none = fatal
or_fatal (some a) = ok a

-- `if err != nil { return err }` on a call of a service.
abbrev pub or_err {ℓ} : {A : Type ℓ} → Option A → Run A
or_err none = err service_error
or_err (some a) = ok a

-- A loop over a slice that carries a state.
unfoldable pub for_each {ℓ κ} : {S : Type ℓ} {A : Type κ} → (S → A → Run S) → S → List A → Run S
for_each body s [] = ok s
for_each body s (a ∷ as_) = body s a >>= λ s'. for_each body s' as_

-- What a call has done, by its outcome.
pub Run-cases {ℓ} :
    {A : Type ℓ} (m : Run A)
    → ((a : A) × (m ≡ ok a)) ⊎ (((e : GoError) × (m ≡ err e)) ⊎ ((m ≡ panic) ⊎ (m ≡ fatal)))
Run-cases (ok a) = inl (a, refl)
Run-cases (err e) = inr (inl (e, refl))
Run-cases panic = inr (inr (inl refl))
Run-cases fatal = inr (inr (inr refl))
