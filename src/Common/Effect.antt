-- ===== src/Common/Effect.antt =====
-- Methods that change a state and may raise: what was written before a raise stays written.

pub mod Safe
use mathlib.Core.Path.{◌≡◌, refl}
use mathlib.Core.Logic.{◌⊎◌, inl, inr}

pub data Result {ℓ} (E A : Type ℓ) : Type ℓ where
  ok : A → Result E A
  raised : E → Result E A

pub ok_inj {ℓ} : {E A : Type ℓ} {a b : A} → ◌≡◌ {A = Result E A} (ok a) (ok b) → a ≡ b
ok_inj h = cc

module _ {ℓ} {E : Type ℓ} where
  infixl 10 ◌>>=ᴿ◌
  -- A pure computation that may raise.
  abbrev pub ◌>>=ᴿ◌ : {A B : Type ℓ} → Result E A → (A → Result E B) → Result E B
  ok a >>=ᴿ f = f a
  raised e >>=ᴿ f = raised e

abbrev pub Exec {ℓ} : Type ℓ → Type ℓ → Type ℓ → Type ℓ
Exec S E A = S → Result E A × S

module _ {ℓ} {S E : Type ℓ} where
  abbrev pub pure : {A : Type ℓ} → A → Exec S E A
  pure a s = (ok a, s)

  abbrev pub raise : {A : Type ℓ} → E → Exec S E A
  raise e s = (raised e, s)

  abbrev pub lift : {A : Type ℓ} → Result E A → Exec S E A
  lift r s = (r, s)

  abbrev continue : {A B : Type ℓ} → (A → Exec S E B) → Result E A → S → Result E B × S
  continue f (ok a) s = f a s
  continue f (raised e) s = (raised e, s)

  infixl 10 ◌>>=◌ ◌>>◌
  abbrev pub ◌>>=◌ : {A B : Type ℓ} → Exec S E A → (A → Exec S E B) → Exec S E B
  ◌>>=◌ m f s = continue f (m s).0 (m s).1

  abbrev pub ◌>>◌ : {A B : Type ℓ} → Exec S E A → Exec S E B → Exec S E B
  m >> n = m >>= λ _. n

module _ {ℓ} {S E A B : Type ℓ} where
  bind_split :
      (f : A → Exec S E B) {b : B} {s' : S} (p : Result E A × S)
      → continue f p.0 p.1 ≡ (ok b, s')
      → (a : A) × (t : S) × (p ≡ (ok a, t)) × (f a t ≡ (ok b, s'))
  bind_split f (ok a, t) h = (a, t, refl, h)
  bind_split f (raised e, t) h = cc

  -- A computation in two parts that returns: both parts returned.
  pub bind-eq-ok :
      (m : Exec S E A) (f : A → Exec S E B) (s : S) {b : B} {s' : S}
      → (m >>= f) s ≡ (ok b, s')
      → (a : A) × (t : S) × (m s ≡ (ok a, t)) × (f a t ≡ (ok b, s'))
  bind-eq-ok m f s h = bind_split f (m s) h

  continue-state :
      (f : A → Exec S E B) (p : Result E A × S)
      → ((a : A) (t : S) → (f a t).1 ≡ t)
      → (continue f p.0 p.1).1 ≡ p.1
  continue-state f (ok a, t) h = h a t
  continue-state f (raised e, t) h = refl

  -- A rest that changes no state leaves the first part's.
  pub bind-state :
      (m : Exec S E A) (f : A → Exec S E B) (s : S)
      → ((a : A) (t : S) → (f a t).1 ≡ t)
      → ((m >>= f) s).1 ≡ (m s).1
  bind-state m f s h = continue-state f (m s) h

  -- A pure part that raises ends the computation where it began.
  pub bind-lift_cases :
      (r : Result E A) (f : A → Exec S E B) (s : S)
      → ((a : A) × (r ≡ ok a) × ((lift r >>= f) s ≡ f a s)) ⊎ (((lift r >>= f) s).1 ≡ s)
  bind-lift_cases (ok a) f s = inl (a, refl, refl)
  bind-lift_cases (raised e) f s = inr refl

  -- A computation that returns, and that begins with a pure part.
  pub bind-lift-eq-ok :
      (r : Result E A) (f : A → Exec S E B) (s : S) {b : B} {s' : S}
      → (lift r >>= f) s ≡ (ok b, s')
      → (a : A) × (r ≡ ok a) × (f a s ≡ (ok b, s'))
  bind-lift-eq-ok (ok a) f s h = (a, refl, h)
  bind-lift-eq-ok (raised e) f s h = absurd cc
