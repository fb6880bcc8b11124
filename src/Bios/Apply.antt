-- ===== src/Bios/Apply.antt =====
-- redfish_ctl/bios/cmd_bios_profile.py: when bios-profile changes the settings of a node.
use redfish_ctl.Common.{
  String, ◌≡◌, refl, Bool, true, false, not, ◌&&◌, ◌||◌, Option, none, some, List, ◌==◌, arith,
  Bool-cases, inl, inr, ◌⊎◌,
}
use redfish_ctl.Common.Dict.{Dict, keys}
use redfish_ctl.Common.Text.{is_empty, join}
use redfish_ctl.Common.Effect.{lift}
use redfish_ctl.Common.Effect.Safe.{Safe, Safe-pure, Safe-if, Safe-bind, Safe-lift}
use redfish_ctl.Json.{Json, truthy}
use redfish_ctl.Bios.{find_profile, desired_attributes, diff_profile}
use redfish_ctl.Bios.Command.{
  BiosCall, bios_inventory, bios_snapshot, bios_change_settings, Invoker, BiosData, nothing,
  summaries, shown, compared, applied, BiosResult, BiosOptions, attributes_in, profile_change,
  stage, apply_profile, read_current_attributes, on_profile, with_profile, named_profile,
  bios_profile,
}

-- The calls that only read, or only show what they would change.
abbrev pub only_shows : BiosCall → Bool
only_shows (bios_inventory attr_filter) = true
only_shows (bios_snapshot spec) = true
only_shows (bios_change_settings spec do_show) = do_show

-- Whether the options ask for a change.
abbrev pub asks_for_change : BiosOptions → Bool
asks_for_change o = (o.action == "apply") && (o.confirm && not o.dry_run)

-- What is staged is marked as a dry run.
abbrev pub IsDry : BiosResult → Type 0
IsDry r = by_data r.data_of
  where
    by_data : BiosData → Type 0
    by_data (applied s) = s.dry_run ≡ true
    by_data nothing = Unit
    by_data (summaries rows) = Unit
    by_data (shown profile) = Unit
    by_data (compared d) = Unit

module _ (I : Invoker) (P : I.State → Type 0)
    (shows : (call : BiosCall)
      → only_shows call ≡ true
      → Safe P (λ r. Unit) (I.sync_invoke call)) where
  Safe-stage :
      (profile : Dict Json) (change : Json) (preview : Bool)
      → preview ≡ true
      → Safe P IsDry (stage I profile change preview)
  unfolding stage
  Safe-stage profile change preview held =
      Safe-bind (λ r. Unit) (I.sync_invoke (bios_snapshot change)) _
        (shows (bios_snapshot change) refl)
        (λ rollback u.
          Safe-bind (λ r. Unit) (I.sync_invoke (bios_change_settings change preview)) _
            (shows (bios_change_settings change preview) held) (λ staged u'. Safe-pure _ held))

  Safe-apply_profile :
      (profile : Dict Json) (confirm dry_run : Bool)
      → (dry_run || not confirm) ≡ true
      → Safe P IsDry (apply_profile I profile confirm dry_run)
  unfolding apply_profile
  Safe-apply_profile profile confirm dry_run held =
      Safe-if (truthy (attributes_in I (profile_change profile))) _ _
        (λ h. Safe-stage profile (profile_change profile) (dry_run || not confirm) held)
        (λ h. Safe-pure _ refl)

  Safe-read_current_attributes :
      (profile : Dict Json) → Safe P (λ d. Unit) (read_current_attributes I profile)
  unfolding read_current_attributes
  Safe-read_current_attributes profile =
      Safe-bind (λ a. Unit) (lift (desired_attributes profile)) _
        (Safe-lift (desired_attributes profile))
        (λ attributes u.
          Safe-bind (λ r. Unit) (I.sync_invoke (bios_inventory (join "," (keys attributes)))) _
            (shows (bios_inventory (join "," (keys attributes))) refl) (λ r u'. Safe-pure _ tt))

  Safe-on_profile :
      (o : BiosOptions) (profile : Dict Json)
      → (o.dry_run || not o.confirm) ≡ true ⊎ ((o.action == "show") || (o.action == "diff") ≡ true)
      → Safe P IsDry (on_profile I o profile)
  unfolding on_profile
  Safe-on_profile o profile held =
      Safe-if (o.action == "show") _ _ (λ h. Safe-pure _ tt)
        (λ not_show.
          Safe-if (o.action == "diff") _ _
            (λ h.
              Safe-bind (λ d. Unit) (read_current_attributes I profile) _
                (Safe-read_current_attributes profile)
                (λ current u.
                  Safe-bind (λ d. Unit) (lift (diff_profile profile current)) _
                    (Safe-lift (diff_profile profile current)) (λ d u'. Safe-pure _ tt)))
            (λ not_diff.
              Safe-apply_profile profile o.confirm o.dry_run
                (elim held [ inl dry ↦ dry | inr other ↦ absurd (ground arith) ])))

  -- Unless it is asked to apply a profile, with confirm and not as a dry run, whatever property of the node
  -- the calls keep that read or only show a change is kept by bios-profile, also by a run that raises;
  -- and what it reports as staged is marked as a dry run.
  pub bios_profile_guard :
      (profiles : List (Dict Json)) (o : BiosOptions)
      → asks_for_change o ≡ false
      → Safe P IsDry (bios_profile I profiles o)
  unfolding bios_profile named_profile
  bios_profile_guard profiles o held =
      Safe-if ((o.action == "show") || ((o.action == "diff") || (o.action == "apply"))) _ _
        (λ known. named o.profile_name known) (λ h. Safe-pure _ tt)
    where
      found :
          (name : String) (p : Option (Dict Json))
          → ((o.action == "show") || ((o.action == "diff") || (o.action == "apply"))) ≡ true
          → Safe P IsDry (with_profile I o name p)
      found name none known = Safe-pure _ tt
      found name (some profile) known =
          Safe-on_profile o profile
            (elim (Bool-cases ((o.action == "show") || (o.action == "diff"))) [
              | inl reads ↦ inr reads
              | inr other ↦ inl (ground arith)
            ])

      named :
          (name : Option String)
          → ((o.action == "show") || ((o.action == "diff") || (o.action == "apply"))) ≡ true
          → Safe P IsDry (named_profile I o profiles name)
      named none known = Safe-pure _ tt
      named (some name) known =
          Safe-if (is_empty name) _ _ (λ h. Safe-pure _ tt)
            (λ h. found name (find_profile profiles name) known)
