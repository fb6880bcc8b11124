-- ===== src/Common/Effect/Safe.antt =====
-- A contract of a computation: it keeps `P` of the state, raise or not, and what it returns has `Q`.
use redfish_ctl.Common.Effect.{Result, ok, raised, Exec, pure, raise, lift, ◌>>=◌}
use redfish_ctl.Common.Tests.{if◌then◌else◌}
use mathlib.Core.Path.{◌≡◌, refl}
use mathlib.Core.Bool.{Bool, true, false}

abbrev pub Holds {ℓ} : {E A : Type ℓ} → (A → Type ℓ) → Result E A → Type ℓ
Holds Q (ok a) = Q a
Holds Q (raised e) = Unit

pub record Safe {ℓ} {S E A : Type ℓ} (P : S → Type ℓ) (Q : A → Type ℓ) (m : Exec S E A)
    : Type ℓ where
  pub run : (s : S) → P s → P (m s).1 × Holds Q (m s).0

module _ {ℓ} {S E A : Type ℓ} {P : S → Type ℓ} {Q : A → Type ℓ} where
  pub Safe-pure : (a : A) → Q a → Safe P Q (pure {E = E} a)
  Safe-pure a q = record { run = λ s p. (p, q) }

  pub Safe-raise : (e : E) → Safe P Q (raise {A = A} e)
  Safe-raise e = record { run = λ s p. (p, tt) }

  pub Safe-if :
      (b : Bool) (m n : Exec S E A)
      → (b ≡ true → Safe P Q m)
      → (b ≡ false → Safe P Q n)
      → Safe P Q (if b then m else n)
  Safe-if true m n h k = h refl
  Safe-if false m n h k = k refl

module _ {ℓ} {S E A B : Type ℓ} {P : S → Type ℓ} {Q : B → Type ℓ} where
  bind_run :
      (R : A → Type ℓ) (f : A → Exec S E B) (p : Result E A × S)
      → P p.1 × Holds R p.0
      → ((a : A) → R a → Safe P Q (f a))
      → let q = (lift p.0 >>= f) p.1 in P q.1 × Holds Q q.0
  bind_run R f (ok a, t) (h, r) k = (k a r).run t h
  bind_run R f (raised e, t) (h, r) k = (h, tt)

  pub Safe-bind :
      (R : A → Type ℓ) (m : Exec S E A) (f : A → Exec S E B)
      → Safe P R m
      → ((a : A) → R a → Safe P Q (f a))
      → Safe P Q (m >>= f)
  Safe-bind R m f h k = record { run = λ s p. bind_run R f (m s) (h.run s p) k }

  -- The rest may use what the pure part returned.
  pub Safe-bind-lift :
      (r : Result E A) (f : A → Exec S E B)
      → ((a : A) → r ≡ ok a → Safe P Q (f a))
      → Safe P Q (lift r >>= f)
  Safe-bind-lift (ok a) f k = k a refl
  Safe-bind-lift (raised e) f k = Safe-raise e

pub Holds-any {ℓ} : {E A : Type ℓ} (r : Result E A) → Holds (λ a. Unit) r
Holds-any (ok a) = tt
Holds-any (raised e) = tt

-- A pure part whose value nothing is said of.
pub Safe-lift {ℓ} : {S E A : Type ℓ} {P : S → Type ℓ} (r : Result E A) → Safe P (λ a. Unit) (lift r)
Safe-lift r = record { run = λ s p. (p, Holds-any r) }
