-- ===== src/Config/Options.antt =====
-- redfish_ctl/config.py: the values that exporter_identity_env gives.
use redfish_ctl.Common.{
  String, ◌≡◌, ◌⊎◌, inl, inr, refl, Bool, true, false, not, Option, none, List, [], ◌∷◌, All,
  contains, arith,
}
use redfish_ctl.Common.Dict.{Dict}
use redfish_ctl.Common.Effect.{ok, bind-eq-ok, pure, ◌>>=◌}
use redfish_ctl.Config.{Env, env_first}
use redfish_ctl.Config.Identity.{
  exporter_identity_env_names, identity_values, exporter_identity_env,
}
use redfish_ctl.Config.Laws.{Agree, first_value, env_first_resolves}

-- For each option the value of the first of its names that is set.
abbrev pub first_values : Env → Dict (List String) → Dict (Option String)
first_values env [] = []
first_values env ((option, names) ∷ options) =
    (option, first_value env names none) ∷ first_values env options

module _ (env : Env) (overridden : List String) where
  -- The option is overridden, or its names agree.
  abbrev pub IsClear : String × List String → Type 0
  IsClear row = (contains row.0 overridden ≡ true) ⊎ Agree env row.1

  returned_value :
      (b : Bool) (names : List String) (warned warned' : List String) (r : Option String)
      → env_first env names none b warned ≡ (ok r, warned')
      → (r ≡ first_value env names none) × ((b ≡ false) ⊎ Agree env names)
  returned_value false names warned warned' r h =
      let e = (env_first_resolves env names none warned).0 in (cc, inl refl)
  returned_value true names warned warned' r h = elim (env_first_resolves env names none warned).1 [
    | inl (agree, e) ↦ (cc, inr agree)
    | inr (clash, e) ↦ absurd cc
  ]

  identity_values_lem :
      (options : Dict (List String)) (warned warned' : List String) (d : Dict (Option String))
      → identity_values env overridden options warned ≡ (ok d, warned')
      → (d ≡ first_values env options) × All IsClear options
  unfolding identity_values
  identity_values_lem [] warned warned' d h = (cc, tt)
  identity_values_lem ((option, names) ∷ options) warned warned' d h =
      let (value, s, e, h1) =
        bind-eq-ok (env_first env names none (not (contains option overridden)))
          (λ value.
            identity_values env overridden options >>= λ rest. pure ((option, value) ∷ rest))
          warned h in
      let (rest, t, e', h2) =
        bind-eq-ok (identity_values env overridden options) (λ rest. pure ((option, value) ∷ rest))
          s h1 in
      let (first, clear) =
        returned_value (not (contains option overridden)) names warned s value e in
      let (later, all_clear) = identity_values_lem options s t rest e' in
      (cc, (elim clear [ inl b ↦ inl (ground arith) | inr agree ↦ inr agree ], all_clear))

-- Where the exporter's identity is given, it has for every option the value of the first of its names
-- that is set, and the names of each option that is not overridden agree.
pub exporter_identity_env-IsClear :
    (env : Env) (overridden warned warned' : List String) (d : Dict (Option String))
    → exporter_identity_env env overridden warned ≡ (ok d, warned')
    → (d ≡ first_values env exporter_identity_env_names)
      × All (IsClear env overridden) exporter_identity_env_names
unfolding exporter_identity_env
exporter_identity_env-IsClear env overridden warned warned' d h =
    identity_values_lem env overridden exporter_identity_env_names warned warned' d h
