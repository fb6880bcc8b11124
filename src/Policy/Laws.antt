-- ===== src/Policy/Laws.antt =====
-- Laws of redfish_ctl/actions/action_policy.py.
use redfish_ctl.Common.{
  String, ◌≡◌, ◌⊎◌, inl, inr, refl, Bool, true, false, some, arith, All, All-of_all, all, distinct,
  Option-cases, Bool-cases, All-map,
}
use redfish_ctl.Common.Dict.{lookup, keys}
use redfish_ctl.Common.Text.{is_empty}
use redfish_ctl.Policy.{
  Destructiveness, read_only, reversible, destructive, irreversible, action_policy, classify,
}

same_level : Destructiveness → Destructiveness → Bool
same_level read_only read_only = true
same_level reversible reversible = true
same_level destructive destructive = true
same_level irreversible irreversible = true
same_level _ _ = false

same_level_sound : (a b : Destructiveness) → same_level a b ≡ true → a ≡ b
unfolding same_level
same_level_sound a b h = ground arith

-- No action type stands twice in the table.
pub action_policy-distinct : distinct (keys action_policy) ≡ true
action_policy-distinct = refl

listed_levels : all (λ row. same_level (classify row.0) row.1) action_policy ≡ true
unfolding same_level classify
listed_levels = refl

-- Every row of the table is what `classify` returns for its action type: no row hides another.
pub classify-listed : All (λ row. classify row.0 ≡ row.1) action_policy
classify-listed =
    All-map (λ row. same_level_sound (classify row.0) row.1) action_policy
      (All-of_all (λ row. same_level (classify row.0) row.1) action_policy listed_levels)

-- An action type below the destructive level, or above it, stands in the table at that level: whatever
-- is not listed, the empty name included, is destructive.
pub classify_lem :
    (t : String) → (classify t ≡ destructive) ⊎ (lookup t action_policy ≡ some (classify t))
unfolding classify
classify_lem t = elim (Bool-cases (is_empty t)) [
  | inl e ↦ inl (rw e refl)
  | inr e ↦ elim (Option-cases (lookup t action_policy)) [
    | inl missing ↦ inl (rw (e, missing) refl)
    | inr found ↦ inr (rw (e, found.1) refl)
  ]
]
