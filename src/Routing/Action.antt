-- ===== src/Routing/Action.antt =====
-- An `async` method: it runs on the state of the services behind it, and returns or throws. What
-- was written before a throw stays written.
use soro_pool.Base.{◌≡◌, refl, ap, Result, ok, err}

abbrev pub Action : Type 0 → Type 0 → Type 0
Action S A = S → Result A × S

module _ {S A : Type 0} where
  abbrev pub pure : A → Action S A
  pure a s = (ok a, s)

  -- A computation that may throw and leaves the state alone.
  abbrev pub lift : Result A → Action S A
  lift r s = (r, s)

-- What follows a call, on the call's outcome.
abbrev pub proceed : {S A B : Type 0} → (A → Action S B) → Result A × S → Result B × S
proceed f (ok a, s) = f a s
proceed f (err e, s) = (err e, s)

infixl 5 ◌>>=◌
abbrev pub ◌>>=◌ : {S A B : Type 0} → Action S A → (A → Action S B) → Action S B
◌>>=◌ m f s = proceed f (m s)

proceed-ok :
    {S A B : Type 0} (f : A → Action S B) (p : Result A × S) {b : B} {u : S}
    → proceed f p ≡ (ok b, u)
    → (a : A) × (t : S) × (p ≡ (ok a, t)) × (f a t ≡ (ok b, u))
proceed-ok f (ok a, t) h = (a, t, refl, h)
proceed-ok f (err e, t) h = cc

-- Inversion of a chain that returns.
pub bind-ok :
    {S A B : Type 0} (m : Action S A) (f : A → Action S B) (s : S) {b : B} {u : S}
    → (m >>= f) s ≡ (ok b, u)
    → (a : A) × (t : S) × (m s ≡ (ok a, t)) × (f a t ≡ (ok b, u))
bind-ok m f s h = proceed-ok f (m s) h

pub result_of :
    {S A : Type 0} {x y : Result A} {s t : S} → ◌≡◌ {A = Result A × S} (x, s) (y, t) → x ≡ y
result_of {S} {A} e = ap (λ (p : Result A × S). p.0) e

pub state_of :
    {S A : Type 0} {x y : Result A} {s t : S} → ◌≡◌ {A = Result A × S} (x, s) (y, t) → s ≡ t
state_of {S} {A} e = ap (λ (p : Result A × S). p.1) e
