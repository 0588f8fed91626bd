-- ===== src/Base/Calls.antt =====
-- What an awaited call does: it returns or throws, and what was written before a throw stays
-- written. A `Run S A` is such a call over a state of type `S`.
use Prim.Native.String.{String}
use mathlib.Core.Path.{◌≡◌, refl}
use mathlib.Core.Logic.{◌⊎◌, inl, inr}
use mathlib.Core.Bool.{Bool, true, false}
use mathlib.Core.Option.{Option, none, some}
use mathlib.Core.List.{List, [], ◌∷◌}

-- The exception classes that the code throws or tells apart; `other` is any other error, with
-- its message.
pub data Failure : Type 0 where
  not_found bad_request conflict bad_gateway other : String → Failure

abbrev pub message : Failure → String
message (not_found s) = s
message (bad_request s) = s
message (conflict s) = s
message (bad_gateway s) = s
message (other s) = s

pub data Outcome {ℓ} (A : Type ℓ) : Type ℓ where
  ok : A → Outcome A
  thrown : Failure → Outcome A

abbrev pub is_ok {ℓ} : {A : Type ℓ} → Outcome A → Bool
is_ok (ok a) = true
is_ok (thrown e) = false

abbrev pub Run : Type 0 → Type 0 → Type 0
Run S A = S → Outcome A × S

module _ {S : Type 0} where
  abbrev pub return : {A : Type 0} → A → Run S A
  return a s = (ok a, s)

  abbrev pub throw : {A : Type 0} → Failure → Run S A
  throw e s = (thrown e, s)

  abbrev pub read : {A : Type 0} → (S → Outcome A) → Run S A
  read f s = (f s, s)

  abbrev pub modify : (S → S) → Run S (Unit {0})
  modify f s = (ok tt, f s)

  abbrev pub after : {A B : Type 0} → Outcome A → (A → Run S B) → Run S B
  after (ok a) f s = f a s
  after (thrown e) f s = (thrown e, s)

  infixl 5 ◌>>=◌ ◌>>◌
  abbrev pub ◌>>=◌ : {A B : Type 0} → Run S A → (A → Run S B) → Run S B
  ◌>>=◌ m f s = let (r, s') = m s in after r f s'

  abbrev pub ◌>>◌ : {A B : Type 0} → Run S A → Run S B → Run S B
  m >> k = m >>= λ _. k

  -- `try { m } catch (e) { handler(e) }`.
  abbrev pub handle : {A : Type 0} → Outcome A → (Failure → Run S A) → Run S A
  handle (ok a) h s = (ok a, s)
  handle (thrown e) h s = h e s

  abbrev pub catch : {A : Type 0} → Run S A → (Failure → Run S A) → Run S A
  catch m h s = let (r, s') = m s in handle r h s'

  abbrev pub or_throw : {A : Type 0} → Option A → Failure → Run S A
  or_throw none e = throw e
  or_throw (some a) e = return a

  -- A transaction: what was written is taken back when it throws.
  abbrev committed : {A : Type 0} → Outcome A → S → S → Outcome A × S
  committed (ok a) before later = (ok a, later)
  committed (thrown e) before later = (thrown e, before)

  abbrev pub in_transaction : {A : Type 0} → Run S A → Run S A
  in_transaction m s = let (r, s') = m s in committed r s s'

  -- `if (b) { m }`.
  abbrev pub when : Bool → Run S (Unit {0}) → Run S (Unit {0})
  when true m = m
  when false m = return tt

  -- `for (const x of xs) { await f(x); }`.
  abbrev pub for_each : {A : Type 0} → List A → (A → Run S (Unit {0})) → Run S (Unit {0})
  for_each [] f s = (ok tt, s)
  for_each (x ∷ xs) f s = let (r, s') = f x s in after r (λ _. for_each xs f) s'

-- The row of a `findOne`, if the call returned one.
abbrev pub row {ℓ} : {A : Type ℓ} → Outcome (Option A) → Option A
row (ok (some a)) = some a
row (ok none) = none
row (thrown e) = none

pub row-cases {ℓ} :
    {A : Type ℓ} (r : Outcome (Option A)) → ((a : A) × (r ≡ ok (some a))) ⊎ (row r ≡ none)
row-cases (ok (some a)) = inl (a, refl)
row-cases (ok none) = inr refl
row-cases (thrown e) = inr refl

pub outcome-cases {ℓ} :
    {A : Type ℓ} (r : Outcome A) → ((a : A) × (r ≡ ok a)) ⊎ ((e : Failure) × (r ≡ thrown e))
outcome-cases (ok a) = inl (a, refl)
outcome-cases (thrown e) = inr (e, refl)
