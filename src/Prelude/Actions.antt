-- ===== src/Prelude/Actions.antt =====
-- Go functions that return an error: results, and actions on a state whose writes stay written
-- when the action fails.
use mathlib.Core.Path.{◌≡◌, refl, ap, subst, ◌∙◌}
use mathlib.Core.Logic.{◌⊎◌, inl, inr}
use mathlib.Core.Bool.{Bool, true, false}
use mathlib.Core.Option.{Option, none, some}

pub data Result {ℓ} (E : Type ℓ) (A : Type ℓ) : Type ℓ where
  ok : A → Result E A
  err : E → Result E A

abbrev pub Exec {ℓ} : Type ℓ → Type ℓ → Type ℓ → Type ℓ
Exec S E A = S → Result E A × S

-- `abbrev`, so that a block of actions computes wherever it is unfolded.
module _ {ℓ} {S E A : Type ℓ} where
  abbrev pub pure : A → Exec S E A
  pure a s = (ok a, s)

  abbrev pub raise : E → Exec S E A
  raise e s = (err e, s)

  abbrev pub lift : Result E A → Exec S E A
  lift r s = (r, s)

  abbrev pub or_raise : Option A → E → Exec S E A
  or_raise none e = raise e
  or_raise (some a) e = pure a

module _ {ℓ} {S E A B : Type ℓ} where
  abbrev pub continue : Result E A × S → (A → Exec S E B) → Result E B × S
  continue (ok a, s) f = f a s
  continue (err e, s) f = (err e, s)

  infixl 5 ◌>>=◌ ◌>>◌
  abbrev pub ◌>>=◌ : Exec S E A → (A → Exec S E B) → Exec S E B
  ◌>>=◌ m f s = continue (m s) f

  abbrev pub ◌>>◌ : Exec S E A → Exec S E B → Exec S E B
  m >> n = m >>= λ _. n

-- Go on only where a test fails: `if test { return err }`.
abbrev pub fail_if {ℓ} : {S E : Type ℓ} → Bool → E → Exec S E (Unit {ℓ})
fail_if true e = raise e
fail_if false e = pure tt

module _ {ℓ} {S E F A : Type ℓ} where
  abbrev pub map_err : (E → F) → Result E A × S → Result F A × S
  map_err f (ok a, s) = (ok a, s)
  map_err f (err e, s) = (err (f e), s)

  -- The same action with its error wrapped.
  abbrev pub wrap : (E → F) → Exec S E A → Exec S F A
  wrap f m s = map_err f (m s)

-- What an action that ends well, or in an error, says of its parts.
module _ {ℓ} {S E A B : Type ℓ} where
  continue-ok :
      (p : Result E A × S) (f : A → Exec S E B) {b : B} {t : S}
      → continue p f ≡ (ok b, t)
      → (a : A) × (u : S) × (p ≡ (ok a, u)) × (f a u ≡ (ok b, t))
  continue-ok (ok a, u) f h = (a, u, refl, h)
  continue-ok (err e, u) f h = cc

  pub bind-ok :
      (m : Exec S E A) (f : A → Exec S E B) (s : S) {b : B} {t : S}
      → (m >>= f) s ≡ (ok b, t)
      → (a : A) × (u : S) × (m s ≡ (ok a, u)) × (f a u ≡ (ok b, t))
  bind-ok m f s h = continue-ok (m s) f h

  continue-err :
      (p : Result E A × S) (f : A → Exec S E B) {e : E} {t : S}
      → continue p f ≡ (err e, t)
      → (p ≡ (err e, t)) ⊎ ((a : A) × (u : S) × (p ≡ (ok a, u)) × (f a u ≡ (err e, t)))
  continue-err (ok a, u) f h = inr (a, u, refl, h)
  continue-err (err e, u) f h = inl cc

  pub bind-err :
      (m : Exec S E A) (f : A → Exec S E B) (s : S) {e : E} {t : S}
      → (m >>= f) s ≡ (err e, t)
      → (m s ≡ (err e, t)) ⊎ ((a : A) × (u : S) × (m s ≡ (ok a, u)) × (f a u ≡ (err e, t)))
  bind-err m f s h = continue-err (m s) f h

module _ {ℓ} {S E F A : Type ℓ} where
  map_err-ok :
      (f : E → F) (p : Result E A × S) {a : A} {t : S} → map_err f p ≡ (ok a, t) → p ≡ (ok a, t)
  map_err-ok f (ok a, s) h = cc
  map_err-ok f (err e, s) h = cc

  pub wrap-ok :
      (f : E → F) (m : Exec S E A) (s : S) {a : A} {t : S}
      → wrap f m s ≡ (ok a, t)
      → m s ≡ (ok a, t)
  wrap-ok f m s h = map_err-ok f (m s) h

  map_err-err :
      (f : E → F) (p : Result E A × S) {e : F} {t : S}
      → map_err f p ≡ (err e, t)
      → (e' : E) × (p ≡ (err e', t)) × (e ≡ f e')
  map_err-err f (ok a, s) h = cc
  map_err-err f (err e', s) h = (e', cc, cc)

  pub wrap-err :
      (f : E → F) (m : Exec S E A) (s : S) {e : F} {t : S}
      → wrap f m s ≡ (err e, t)
      → (e' : E) × (m s ≡ (err e', t)) × (e ≡ f e')
  wrap-err f m s h = map_err-err f (m s) h

-- To split on how an action ends.
pub ends_cases {ℓ} :
    {S E A : Type ℓ} (p : Result E A × S)
    → ((a : A) × (t : S) × (p ≡ (ok a, t))) ⊎ ((e : E) × (t : S) × (p ≡ (err e, t)))
ends_cases (ok a, t) = inl (a, t, refl)
ends_cases (err e, t) = inr (e, t, refl)

module _ {ℓ} {S E A B : Type ℓ} where
  continue-state :
      (p : Result E A × S) (f : A → Exec S E B) (s : S)
      → p.1 ≡ s
      → ((a : A) (t : S) → (f a t).1 ≡ t)
      → (continue p f).1 ≡ s
  continue-state (ok a, t) f s h rest = rest a t ∙ h
  continue-state (err e, t) f s h rest = h

  -- Actions that leave the state alone do so one after the other.
  pub bind-state :
      (m : Exec S E A) (f : A → Exec S E B) (s : S)
      → (m s).1 ≡ s
      → ((a : A) (t : S) → (f a t).1 ≡ t)
      → ((m >>= f) s).1 ≡ s
  bind-state m f s h rest = continue-state (m s) f s h rest

-- To split on whether there is a value.
pub option_cases {ℓ} : {A : Type ℓ} (o : Option A) → (o ≡ none) ⊎ ((a : A) × (o ≡ some a))
option_cases none = inl refl
option_cases (some a) = inr (a, refl)

pub some-inj {ℓ} : {A : Type ℓ} {a b : A} → ◌≡◌ {A = Option A} (some a) (some b) → a ≡ b
some-inj h = cc

-- What holds of a value and a state holds of those that `pure` ends with.
pub ok-inj {ℓ} : {E A : Type ℓ} {a b : A} → ◌≡◌ {A = Result E A} (ok a) (ok b) → a ≡ b
ok-inj h = cc

module _ {ℓ} {S E A : Type ℓ} where
  pub pure-ok :
      (P : A → S → Type ℓ) {a b : A} {s t : S}
      → ◌≡◌ {A = Result E A × S} (ok a, s) (ok b, t)
      → P a s
      → P b t
  pure-ok P {a} {b} {s} {t} h p =
      subst (λ x. P x t) (ok-inj (ap (λ q. q.0) h)) (subst (P a) (ap (λ q. q.1) h) p)
