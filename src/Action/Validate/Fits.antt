-- ===== src/Action/Validate/Fits.antt =====
-- Which payloads _validate_action_payload accepts.
use redfish_ctl.Common.{
  String, ◌≡◌, ◌≢◌, sym, ◌↔◌, ◌⊎◌, inl, inr, refl, Bool, true, false, not, Option, none, some, List,
  [], ◌∷◌, ◌++◌, all, arith, Bool-cases,
}
use redfish_ctl.Common.Dict.{Dict, lookup}
use redfish_ctl.Common.Effect.{Result, ok, raised, ◌>>=ᴿ◌}
use redfish_ctl.Json.{Json}
use redfish_ctl.Json.Equality.{member}
use redfish_ctl.Http.{Exn}
use redfish_ctl.Action.{RedfishAction}
use redfish_ctl.Action.Validate.{
  args_of, parameters_of, texts_of, check_against, with_args, validate_action_payload,
  ValidationError, outside, values_of, check_value, check_parameter, check_payload, sort_values,
}

-- A value that a parameter takes: any, if it lists none, else only listed ones.
abbrev allowed_by : List Json → Json → Bool
allowed_by [] value = true
allowed_by (a ∷ as') value = all (λ v. member v (a ∷ as')) (values_of value)

-- A row of a payload fits: its parameter takes the value; a name that is unknown fits unless names are strict.
abbrev pub fits : Bool → Option (List Json) → Json → Bool
fits strict none value = not strict
fits strict (some allowed) value = allowed_by allowed value

outside-all :
    (allowed vs : List Json)
    → (outside allowed vs ≡ [] → all (λ v. member v allowed) vs ≡ true)
      × (all (λ v. member v allowed) vs ≡ true → outside allowed vs ≡ [])
outside-all allowed [] = (λ h. refl, λ h. refl)
outside-all allowed (v ∷ vs) = elim (Bool-cases (member v allowed)) [
  | inl inside ↦ rw inside (outside-all allowed vs)
  | inr out ↦ rw out (λ h. cc, λ h. cc)
]

never_empty :
    {A B C : Type 0} (m : Result Exn A) (f : A → B) → (m >>=ᴿ λ a. ok (f a ∷ [])) ≡ ok [] → C
never_empty (ok a) f h = cc
never_empty (raised e) f h = cc

value_accepted :
    (name : String) (value a : Json) (others invalid : List Json)
    → outside (a ∷ others) (values_of value) ≡ invalid
    → (check_value name value (a ∷ others) invalid ≡ ok [])
      ↔ (all (λ v. member v (a ∷ others)) (values_of value) ≡ true)
unfolding check_value
value_accepted name value a others [] e =
    (λ h. (outside-all (a ∷ others) (values_of value)).0 e, λ k. refl)
value_accepted name value a others (i ∷ invalid) e = (
  λ h. never_empty (sort_values (a ∷ others)) _ h,
  λ k. cc ((outside-all (a ∷ others) (values_of value)).1 k, e),
)

parameter_accepted :
    (strict : Bool) (name : String) (value : Json) (parameter : Option (List Json))
    → (check_parameter strict name value parameter ≡ ok []) ↔ (fits strict parameter value ≡ true)
unfolding check_value
parameter_accepted true name value none = (λ h. cc, λ h. cc)
parameter_accepted false name value none = (λ h. refl, λ h. refl)
parameter_accepted strict name value (some []) = (λ h. refl, λ h. refl)
parameter_accepted strict name value (some (a ∷ others)) = value_accepted name value a others _ refl

appended :
    (m n : Result Exn (List ValidationError))
    → ((m >>=ᴿ λ here. n >>=ᴿ λ rest. ok (here ++ rest)) ≡ ok []) ↔ ((m ≡ ok []) × (n ≡ ok []))
appended (raised e) n = (λ h. cc, λ h. cc (h.0))
appended (ok []) (ok rest) = (λ h. (refl, h), λ h. h.1)
appended (ok []) (raised e) = (λ h. cc, λ h. cc (h.1))
appended (ok (x ∷ xs)) (ok rest) = (λ h. cc, λ h. cc (h.0))
appended (ok (x ∷ xs)) (raised e) = (λ h. cc, λ h. cc)

no_parameters :
    {parameters : Dict (List Json)}
    → ◌≡◌ {A = Result Exn (Dict (List Json))} (ok []) (ok parameters)
    → parameters ≡ []
no_parameters h = cc

-- Every row of the payload fits the parameters.
abbrev pub all_fit : Bool → Dict (List Json) → Dict Json → Bool
all_fit strict parameters payload = all (λ row. fits strict (lookup row.0 parameters) row.1) payload

payload_accepted :
    (strict : Bool) (parameters : Dict (List Json)) (payload : Dict Json)
    → (check_payload strict parameters payload ≡ ok []) ↔ (all_fit strict parameters payload ≡ true)
unfolding check_payload
payload_accepted strict parameters [] = (λ h. refl, λ h. refl)
payload_accepted strict parameters ((name, value) ∷ payload) =
    let both =
      appended (check_parameter strict name value (lookup name parameters))
        (check_payload strict parameters payload) in
    let here = parameter_accepted strict name value (lookup name parameters) in
    let rest = payload_accepted strict parameters payload in
    (
      λ h. let (first, later) = both.0 h in ground (arith, here.0 first, rest.0 later),
      λ k. both.1 (here.1 (ground arith), rest.1 (ground arith)),
    )

module _ (schema : String → Dict (List String)) where
  -- The parameters that a payload is checked against, and whether names are strict: those of the
  -- action's annotations, or else those of the schema.
  abbrev pub Takes : String → Option RedfishAction → Bool → Dict (List Json) → Type 0
  Takes full_action_type action strict parameters =
      ((args_of action ≡ []) × (strict ≡ true) × (parameters ≡ texts_of (schema full_action_type)))
      ⊎ ((strict ≡ false) × (parameters_of (args_of action) ≡ ok parameters))

  against_accepted :
      (strict : Bool) (parameters : Dict (List Json)) (payload : Dict Json)
      → parameters ≢ []
      → (check_against strict parameters payload ≡ ok [])
        ↔ (all_fit strict parameters payload ≡ true)
  unfolding check_against
  against_accepted strict [] payload some_given = elim (some_given refl) [ ]
  against_accepted strict (p ∷ ps) payload some_given = payload_accepted strict (p ∷ ps) payload

  -- Where an action has parameters, in its annotations or else in the schema, its payload passes
  -- exactly if each of its rows fits: the parameter is known, or names are not strict because the
  -- annotations were used, and every value is one that the parameter lists, if it lists any.
  pub validate_action_payload_accepts :
      (full_action_type : String) (action : Option RedfishAction) (payload : Dict Json)
      (strict : Bool) (parameters : Dict (List Json))
      → Takes full_action_type action strict parameters
      → parameters ≢ []
      → (validate_action_payload schema full_action_type action payload ≡ ok [])
        ↔ (all_fit strict parameters payload ≡ true)
  unfolding validate_action_payload with_args parameters_of
  validate_action_payload_accepts full action payload strict parameters takes given =
      by_args (args_of action) takes
    where
      by_args :
          (args : Dict Json)
          → (((args ≡ []) × (strict ≡ true) × (parameters ≡ texts_of (schema full)))
              ⊎ ((strict ≡ false) × (parameters_of args ≡ ok parameters)))
          → (with_args schema full args payload ≡ ok [])
            ↔ (all_fit strict parameters payload ≡ true)
      by_args [] (inl (e, s, p)) = rw (s, sym p) (against_accepted true parameters payload given)
      by_args [] (inr (s, p)) = elim (given (no_parameters p)) [ ]
      by_args (row ∷ rows) (inl (e, s, p)) = (λ h. cc, λ h. cc)
      by_args (row ∷ rows) (inr (s, p)) =
          rw (s, p) (against_accepted false parameters payload given)
