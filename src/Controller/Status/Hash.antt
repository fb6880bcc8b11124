-- ===== src/Controller/Status/Hash.antt =====
-- Laws of plan_hash: which steps the hash of a plan covers.
use redfish_ctl.Common.{
  String, ◌≡◌, ◌⊎◌, inl, inr, refl, Bool, true, false, Option, none, some, List, [], ◌∷◌, any,
  Bool-cases, if◌then◌else◌,
}
use redfish_ctl.Common.Text.{is_empty}
use redfish_ctl.Reconcile.Plan.{ReconcileStep}
use redfish_ctl.Controller.Status.{plan_hash, hash_of, required_steps}

-- The first list is what is left of the second one without the steps that are not required.
pub data IsRequiredPart : List ReconcileStep → List ReconcileStep → Type 0 where
  part_of_none : IsRequiredPart [] []
  with_required :
      (s : ReconcileStep) (rs ss : List ReconcileStep)
      → s.required ≡ true
      → IsRequiredPart rs ss
      → IsRequiredPart (s ∷ rs) (s ∷ ss)
  without_spare :
      (s : ReconcileStep) (rs ss : List ReconcileStep)
      → s.required ≡ false
      → IsRequiredPart rs ss
      → IsRequiredPart rs (s ∷ ss)

pub required_steps-IsRequiredPart :
    (steps : List ReconcileStep) → IsRequiredPart (required_steps steps) steps
unfolding required_steps
required_steps-IsRequiredPart [] = part_of_none
required_steps-IsRequiredPart (s ∷ ss) = by_flag s.required refl (required_steps-IsRequiredPart ss)
  where
    by_flag :
        (b : Bool)
        → s.required ≡ b
        → IsRequiredPart (required_steps ss) ss
        → IsRequiredPart (if b then s ∷ required_steps ss else required_steps ss) (s ∷ ss)
    by_flag true needed part = with_required s (required_steps ss) ss needed part
    by_flag false spare part = without_spare s (required_steps ss) ss spare part

module _ (digest : List ReconcileStep → String) where
  pub plan_hash_cases :
      ((steps : List ReconcileStep) → is_empty (digest steps) ≡ false)
      → (steps : List ReconcileStep)
      → (plan_hash digest steps ≡ none) × (any (λ s. s.required) steps ≡ false)
        ⊎ ((h : String) × (plan_hash digest steps ≡ some h)
            × (is_empty h ≡ false)
            × (any (λ s. s.required) steps ≡ true))
  unfolding plan_hash
  plan_hash_cases nonempty [] = inl (refl, refl)
  plan_hash_cases nonempty (s ∷ ss) = elim (Bool-cases s.required) [
    | inl needed ↦ inr (digest (s ∷ required_steps ss), rw needed refl, nonempty _, rw needed refl)
    | inr spare ↦ elim (plan_hash_cases nonempty ss) [
      | inl (e, f) ↦ inl (rw spare e, rw spare f)
      | inr (h, e, f, g) ↦ inr (h, rw spare e, f, rw spare g)
    ]
  ]

  -- A plan without required steps has no hash; any other has the digest of exactly these steps.
  abbrev pub HashOf : List ReconcileStep → Option String → Type 0
  HashOf [] h = h ≡ none
  HashOf (r ∷ rs) h = h ≡ some (digest (r ∷ rs))

  pub plan_hash-HashOf :
      (steps : List ReconcileStep) → HashOf (required_steps steps) (plan_hash digest steps)
  unfolding plan_hash
  plan_hash-HashOf steps = by_steps (required_steps steps)
    where
      by_steps : (rs : List ReconcileStep) → HashOf rs (hash_of digest rs)
      by_steps [] = refl
      by_steps (r ∷ rs) = refl
