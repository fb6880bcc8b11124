-- ===== src/Bios/Command.antt =====
-- redfish_ctl/bios/cmd_bios_profile.py: BiosProfile.execute and _apply_profile.
use redfish_ctl.Common.{
  String, ◌<>◌, Bool, true, not, ◌||◌, Option, none, some, List, [], ◌∷◌, ◌==◌, if◌then◌else◌, map,
}
use redfish_ctl.Common.Dict.{Dict, keys}
use redfish_ctl.Common.Effect.{Exec, pure, lift, ◌>>=◌}
use redfish_ctl.Common.Text.{is_empty, join}
use redfish_ctl.Json.{Json, null, dict, object, props, get, truthy}
use redfish_ctl.Http.{Exn, CommandError, message, CommandResult}
use redfish_ctl.Bios.{
  BiosDiff, summary_of, find_profile, attributes_from_bios_result, desired_attributes, diff_profile,
}

-- The commands that bios-profile issues; a spec is the content of the file that is passed.
pub data BiosCall : Type 0 where
  bios_inventory : (attr_filter : String) → BiosCall
  bios_snapshot : (spec : Json) → BiosCall
  bios_change_settings : (spec : Json) (do_show : Bool) → BiosCall

pub record Invoker : Type 1 where
  pub State : Type 0
  pub sync_invoke : BiosCall → Exec State Exn CommandResult

pub record Staged : Type 0 where
  pub profile : Json
  pub dry_run : Bool
  pub change : Json
  pub rollback : Json
  pub staged : Json

-- What is returned as data.
pub data BiosData : Type 0 where
  nothing : BiosData
  summaries : List Json → BiosData
  shown : Dict Json → BiosData
  compared : BiosDiff → BiosData
  applied : Staged → BiosData

pub record BiosResult : Type 0 where
  pub data_of : BiosData
  pub error : Option CommandError

pub record BiosOptions : Type 0 where
  pub action : String
  pub profile_name : Option String
  pub confirm : Bool
  pub dry_run : Bool

abbrev change_of : Json → Json
change_of (dict fs) = object (("Attributes", dict fs) ∷ [])
change_of _ = object []

unfoldable pub profile_change : Dict Json → Json
unfolding get
profile_change profile = change_of (get profile "attributes")

abbrev no_attributes : Json
no_attributes = object (("Attributes", object []) ∷ [])

abbrev pub first_error : Option CommandError → Option CommandError → Option CommandError
first_error none later = later
first_error (some e) later = some e

abbrev fails : String → BiosResult
fails t = record { data_of = nothing; error = some (message t) }

module _ (I : Invoker) where
  unfoldable pub stage : Dict Json → Json → Bool → Exec I.State Exn BiosResult
  unfolding get
  stage profile change preview = I.sync_invoke (bios_snapshot change) >>= λ rollback.
      I.sync_invoke (bios_change_settings change preview) >>= λ staged. pure (record {
        data_of = applied (record {
          profile = get profile "name";
          dry_run = preview;
          change = change;
          rollback = rollback.data_of;
          staged = staged.data_of;
        });
        error = first_error rollback.error staged.error;
      })

  unfoldable pub attributes_in : Json → Json
  unfolding get
  attributes_in (dict fs) = get (props fs) "Attributes"
  attributes_in _ = null

  unfoldable pub apply_profile : Dict Json → Bool → Bool → Exec I.State Exn BiosResult
  unfolding get profile_change attributes_in stage
  apply_profile profile confirm dry_run =
      if truthy (attributes_in (profile_change profile))
      then stage profile (profile_change profile) (dry_run || not confirm)
      else pure (record {
        data_of = applied (record {
          profile = get profile "name";
          dry_run = true;
          change = profile_change profile;
          rollback = no_attributes;
          staged = object [];
        });
        error = some (message "profile has no attributes");
      })

  unfoldable pub read_current_attributes : Dict Json → Exec I.State Exn (Dict Json)
  unfolding desired_attributes attributes_from_bios_result join
  read_current_attributes profile = lift (desired_attributes profile) >>= λ attributes.
      I.sync_invoke (bios_inventory (join "," (keys attributes))) >>= λ result.
      pure (attributes_from_bios_result result.data_of)

  -- The actions on one profile.
  unfoldable pub on_profile : BiosOptions → Dict Json → Exec I.State Exn BiosResult
  unfolding read_current_attributes diff_profile apply_profile
  on_profile o profile =
      if o.action == "show"
      then pure (record { data_of = shown profile; error = none })
      else if o.action == "diff"
      then (read_current_attributes profile >>= λ current.
          lift (diff_profile profile current) >>= λ d.
          pure (record { data_of = compared d; error = none }))
      else apply_profile profile o.confirm o.dry_run

  unfoldable pub with_profile :
      BiosOptions → String → Option (Dict Json) → Exec I.State Exn BiosResult
  unfolding on_profile
  with_profile o name none = pure (fails ("profile not found: " <> name))
  with_profile o name (some profile) = on_profile o profile

  unfoldable pub named_profile :
      BiosOptions → List (Dict Json) → Option String → Exec I.State Exn BiosResult
  unfolding with_profile find_profile
  named_profile o profiles none = pure (fails ("profile name is required for " <> o.action))
  named_profile o profiles (some name) =
      if is_empty name
      then pure (fails ("profile name is required for " <> o.action))
      else with_profile o name (find_profile profiles name)

  -- `profiles` are the profiles of the catalog.
  unfoldable pub bios_profile : List (Dict Json) → BiosOptions → Exec I.State Exn BiosResult
  unfolding named_profile summary_of
  bios_profile profiles o =
      if (o.action == "show") || ((o.action == "diff") || (o.action == "apply"))
      then named_profile o profiles o.profile_name
      else pure (record { data_of = summaries (map summary_of profiles); error = none })
