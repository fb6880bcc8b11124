-- ===== src/Config/Redaction.antt =====
-- redfish_ctl/config.py: the values that a conflict of configuration shows.
use redfish_ctl.Common.{
  String, ◌≡◌, inl, inr, refl, Bool, true, false, Option, List, [], ◌∷◌, arith, Bool-cases,
  Option-cases,
}
use redfish_ctl.Common.Dict.{Dict, lookup, has}
use redfish_ctl.Common.Effect.{raised}
use redfish_ctl.Config.{
  Env, ConfigError, conflict, is_secret, redacted, present, conflict_lines, conflict_text, settle,
  env_first,
}

-- Two environments that set the same names, and set those that are not secret to the same values.
pub record IsAlike (env other : Env) : Type 0 where
  pub same_names : (n : String) → has n env ≡ has n other
  pub same_values : (n : String) → is_secret n ≡ false → lookup n env ≡ lookup n other

redacted-secret : (n v w : String) → is_secret n ≡ true → redacted n v ≡ redacted n w
unfolding redacted
redacted-secret n v w h = rw h refl

module _ (env other : Env) (alike : IsAlike env other) where
  conflict_lines-alike :
      (names : List String)
      → conflict_lines (present env names) ≡ conflict_lines (present other names)
  unfolding present
  conflict_lines-alike [] = refl
  conflict_lines-alike (n ∷ names) = elim (Option-cases (lookup n env)) [
    | inl unset ↦ elim (Option-cases (lookup n other)) [
      | inl unset_too ↦ rw (unset, unset_too) (conflict_lines-alike names)
      | inr (w, set) ↦ absurd (ground (arith, alike.same_names n))
    ]
    | inr (v, set) ↦ elim (Option-cases (lookup n other)) [
      | inl unset ↦ absurd (ground (arith, alike.same_names n))
      | inr (w, set_too) ↦
          let shown : redacted n v ≡ redacted n w = elim (Bool-cases (is_secret n)) [
            | inl secret ↦ redacted-secret n v w secret
            | inr open_name ↦ let same = alike.same_values n open_name in cc
          ] in
          rw (set, set_too, shown, conflict_lines-alike names) refl
    ]
  ]

raises_conflict :
    (names : List String) (default : Option String) (strict : Bool) (d : Dict String)
    (warned warned' : List String) (e : ConfigError)
    → settle names default strict d warned ≡ (raised e, warned')
    → e ≡ conflict (conflict_text names d)
unfolding settle
raises_conflict names default strict [] warned warned' e h = cc
raises_conflict names default strict ((n, v) ∷ d) warned warned' e h = ground arith

-- What a conflict says does not depend on the values of secret names: two environments that set the
-- same names, and set those that are not secret to the same values, give the same error where both
-- give one.
pub env_first_redacts :
    (env other : Env) (names : List String) (default : Option String) (strict : Bool)
    (warned warned' warned'' : List String) (e e' : ConfigError)
    → IsAlike env other
    → env_first env names default strict warned ≡ (raised e, warned')
    → env_first other names default strict warned ≡ (raised e', warned'')
    → e ≡ e'
unfolding env_first conflict_text
env_first_redacts env other names default strict warned warned' warned'' e e' alike h h' =
    let one = raises_conflict names default strict (present env names) warned warned' e h in
    let two = raises_conflict names default strict (present other names) warned warned'' e' h' in
    let lines = conflict_lines-alike env other alike names in rw (one, two, lines) refl
