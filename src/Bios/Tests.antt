-- ===== src/Bios/Tests.antt =====
-- A catalog of one profile, on a node that has one of its two attributes.
use redfish_ctl.Common.{
  ◌≡◌, ◌↔◌, ◌+◌, refl, String, Bool, true, false, none, some, List, [], ◌∷◌, All, length, ℕ,
}
use redfish_ctl.Common.Dict.{Dict}
use redfish_ctl.Common.Effect.{ok}
use redfish_ctl.Common.Effect.Safe.{Safe}
use redfish_ctl.Json.{Json, str, object}
use redfish_ctl.Http.{CommandResult}
use redfish_ctl.Bios.{BiosDiff, desired_attributes, diff_profile, profile_identity}
use redfish_ctl.Bios.Apply.{only_shows, IsDry, bios_profile_guard}
use redfish_ctl.Bios.Command.{
  BiosCall, bios_inventory, bios_snapshot, bios_change_settings, Invoker, BiosOptions, bios_profile,
}
use redfish_ctl.Bios.Diff.{rows_for, IsMet, diff_profile_lem}

abbrev wanted : Dict Json
wanted = ("ProcTurboMode", str "Enabled") ∷ ("SubNumaCluster", str "Disabled") ∷ []

abbrev profile : Dict Json
profile = ("name", str "hpc") ∷ ("attributes", object wanted) ∷ []

abbrev current : Dict Json
current = ("ProcTurboMode", str "Enabled") ∷ []

abbrev difference : BiosDiff
unfolding profile_identity
difference = record {
  profile = profile_identity profile;
  is_match = false;
  summary = record { total = 2; matching_count = 1; different_count = 0; missing_count = 1 };
  attributes = rows_for current wanted;
}

wanted_is_named : desired_attributes profile ≡ ok wanted
unfolding desired_attributes
wanted_is_named = refl

one_is_missing : diff_profile profile current ≡ ok difference
unfolding diff_profile
one_is_missing = refl

diff_profile_lem_example :
    (rows_for current wanted ≡ rows_for current wanted)
    × (◌≡◌ {A = ℕ} 2 (length wanted))
    × (1 + 0 + 1 ≡ length wanted)
    × ((false ≡ true) ↔ All (IsMet current) wanted)
unfolding difference
diff_profile_lem_example =
    diff_profile_lem profile current wanted difference wanted_is_named one_is_missing

abbrev answer : CommandResult
answer = record { data_of = object []; error = none }

abbrev log_call : BiosCall → List String → List String
log_call (bios_inventory attr_filter) log = log
log_call (bios_snapshot spec) log = log
log_call (bios_change_settings spec true) log = log
log_call (bios_change_settings spec false) log = "change" ∷ log

abbrev node : Invoker
node = record { State = List String; sync_invoke = λ call log. (ok answer, log_call call log) }

abbrev options : Bool → BiosOptions
options dry_run = record {
  action = "apply";
  profile_name = some "hpc";
  confirm = true;
  dry_run = dry_run;
}

confirmed_changes : (bios_profile node (profile ∷ []) (options false) []).1 ≡ "change" ∷ []
unfolding bios_profile
confirmed_changes = refl

abbrev IsQuiet : List String → Type 0
IsQuiet log = log ≡ []

shows_quietly :
    (call : BiosCall) → only_shows call ≡ true → Safe IsQuiet (λ r. Unit) (node.sync_invoke call)
shows_quietly (bios_inventory attr_filter) h = record { run = λ s p. (p, tt) }
shows_quietly (bios_snapshot spec) h = record { run = λ s p. (p, tt) }
shows_quietly (bios_change_settings spec true) h = record { run = λ s p. (p, tt) }
shows_quietly (bios_change_settings spec false) h = absurd cc

bios_profile_guard_example : Safe IsQuiet IsDry (bios_profile node (profile ∷ []) (options true))
bios_profile_guard_example =
    bios_profile_guard node IsQuiet shows_quietly (profile ∷ []) (options true) refl
