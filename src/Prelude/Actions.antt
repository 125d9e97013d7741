-- ===== src/Prelude/Actions.antt =====
-- Exceptions and state: an action returns or raises, and its state comes back either way, since what
-- Python has written stays written. A database session takes its writes back when its body raises.
use Prim.Native.Nat.{ℕ}
use Prim.Native.String.{String}
use mathlib.Core.Path.{◌≡◌, refl, ap}
use mathlib.Core.Logic.{◌⊎◌, inl, inr}
use mathlib.Core.Bool.{Bool}
use mathlib.Core.Option.{Option, none, some}
use concertpvr.Prelude.Tests.{if◌then◌else◌}

-- The exceptions that the modelled code raises or tells apart.
pub data Exn : Type 0 where
  -- `HTTPException(status_code, detail)`
  http : ℕ → String → Exn
  lookup_error value_error runtime_error type_error : Exn
  integrity_error download_error cancelled os_error other : Exn

pub data Result {ℓ} (A : Type ℓ) : Type ℓ where
  ok : A → Result A
  err : Exn → Result A

abbrev pub Action : Type 0 → Type 0 → Type 0
Action S A = S → Result A × S

module _ {S A : Type 0} where
  abbrev pub pure : A → Action S A
  pure a s = (ok a, s)

  abbrev pub raise : Exn → Action S A
  raise e s = (err e, s)

  abbrev pub gets : (S → A) → Action S A
  gets f s = (ok (f s), s)

  abbrev pub or_raise : Exn → Option A → Action S A
  or_raise e none = raise e
  or_raise e (some a) = pure a

  abbrev pub lift : Result A → Action S A
  lift r s = (r, s)

  -- `with db.session() as s:` commits on a clean exit and rolls back on an exception.
  abbrev pub session : Action S A → Action S A
  session m s = let (r, s') = m s in elim r [ ok a ↦ (ok a, s') | err e ↦ (err e, s) ]

infixl 5 ◌>>=◌ ◌>>◌
abbrev pub ◌>>=◌ : {S A B : Type 0} → Action S A → (A → Action S B) → Action S B
◌>>=◌ m f s = let (r, s') = m s in elim r [ ok a ↦ f a s' | err e ↦ (err e, s') ]

abbrev pub ◌>>◌ : {S A B : Type 0} → Action S A → Action S B → Action S B
m >> k = m >>= λ _. k

module _ {S : Type 0} where
  abbrev pub raise_if : Bool → Exn → Action S (Unit {0})
  raise_if c e s = (if c then err e else ok tt, s)

  abbrev pub modify : (S → S) → Action S (Unit {0})
  modify f s = (ok tt, f s)

pub Result-cases {ℓ} :
    {A : Type ℓ} (r : Result A) → ((a : A) × (r ≡ ok a)) ⊎ ((e : Exn) × (r ≡ err e))
Result-cases (ok a) = inl (a, refl)
Result-cases (err e) = inr (e, refl)

-- What follows an action that returned.
pub bind-ok :
    {S A B : Type 0} (m : Action S A) (k : A → Action S B) (s s' : S) (a : A)
    → m s ≡ (ok a, s')
    → (m >>= k) s ≡ k a s'
bind-ok m k s s' a h = rw (h, ◌>>=◌) (ap (λ x. k a x.1) h)

-- What holds of both ends of an optional value holds of what follows it.
pub or_raise-bind :
    {S A B : Type 0} (P : Result B × S → Type 0) (e : Exn) (o : Option A) (k : A → Action S B)
    (s : S)
    → P (err e, s)
    → ((a : A) → P (k a s))
    → P ((or_raise e o >>= k) s)
or_raise-bind P e none k s missing next = missing
or_raise-bind P e (some a) k s missing next = next a

-- A field of a patch with `exclude_unset`: absent, or present with a value that may be null. The
-- result is the value that the column gets.
abbrev pub changed : {A : Type 0} → Option (Option A) → A → Option A
changed none old = some old
changed (some v) old = v

abbrev pub changed_null : {A : Type 0} → Option (Option A) → Option A → Option A
changed_null none old = old
changed_null (some v) old = v
