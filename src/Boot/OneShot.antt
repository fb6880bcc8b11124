-- ===== src/Boot/OneShot.antt =====
-- redfish_ctl/boot_source/cmd_boot_one_shot.py: BootOneShot.execute.
use redfish_ctl.Common.{
  String, ◌<>◌, Bool, true, false, not, ◌||◌, Option, none, some, List, [], ◌∷◌, if◌then◌else◌,
  contains, is_some, all,
}
use redfish_ctl.Common.Dict.{Dict, lookup, insert}
use redfish_ctl.Common.Effect.{Result, ok, raised, Exec, pure, raise, lift, ◌>>=◌}
use redfish_ctl.Json.{Json, null, bool, str, list, dict, elems, props, object, get, to_text}
use redfish_ctl.Http.{
  Exn, unauthorized, forbidden, not_found, authentication_failed, unsupported_action,
  task_id_unavailable, python_error, invalid_argument, transport, Transport, CommandError, message,
  CommandResult, RedfishApiRespond, accepted_task_generated,
}
use redfish_ctl.Http.Error.{exn_text}
use redfish_ctl.Http.Status.{base_patch}
use redfish_ctl.Boot.{texts_in, resolve_boot_device, boot_payload}

pub record BootOptions : Type 0 where
  pub device : String
  pub uefi_target : Option String
  pub mode : Option String
  pub do_reboot : Bool
  pub do_power_on : Bool
  pub dry_run : Bool
  pub confirm : Bool

-- Whether an exception is one of _RESET_ERRORS; `not_found` is ResourceNotFound.
abbrev pub is_reset_error : Exn → Bool
is_reset_error (unauthorized e) = true
is_reset_error (forbidden e) = true
is_reset_error (not_found e) = false
is_reset_error (authentication_failed t) = false
is_reset_error (unsupported_action t) = true
is_reset_error (task_id_unavailable t) = false
is_reset_error (python_error t) = false
is_reset_error (invalid_argument t) = true
is_reset_error (transport t) = true

-- `in` raises for a value that is no list, dict or text.
abbrev on_devices : Json → Result Exn Json
on_devices (list vs) = ok (list vs)
on_devices (dict fs) = ok (dict fs)
on_devices (str t) = ok (str t)
on_devices _ = raised (python_error "argument is not iterable")

abbrev devices_of : Json → Result Exn Json
unfolding get
devices_of (dict fs) =
    on_devices (get (props fs) "BootSourceOverrideTarget@Redfish.AllowableValues")
devices_of _ = raised (python_error "Boot")

-- set(devices) raises for a list with a list or a dict in it.
abbrev is_hashable : Json → Bool
is_hashable (list vs) = false
is_hashable (dict fs) = false
is_hashable _ = true

abbrev pub hashed : Json → Result Exn Unit
hashed (list vs) =
    if all is_hashable (elems vs) then ok tt else raised (python_error "unhashable type")
hashed _ = ok tt

abbrev boot_of : Dict Json → Option Json → Json
boot_of system none = object system
boot_of system (some boot) = boot

-- The targets that a system advertises, in its Boot object or at its top.
unfoldable pub boot_devices : Dict Json → Result Exn Json
unfolding lookup devices_of
boot_devices system = devices_of (boot_of system (lookup "Boot" system))

abbrev pub as_system : Json → Dict Json
as_system (dict fs) = props fs
as_system _ = []

abbrev with_field : String → Json → Json → Json
unfolding insert
with_field key v (dict fs) = object (insert key v (props fs))
with_field key v _ = object ((key, v) ∷ [])

-- The paths of the boot options that have one.
abbrev path_of : Option Json → List Json
path_of none = []
path_of (some v) = v ∷ []

abbrev pub uefi_paths : List (Dict Json) → List Json
unfolding lookup
uefi_paths [] = []
uefi_paths (d ∷ ds) = prepend (path_of (lookup "UefiDevicePath" d)) (uefi_paths ds)
  where
    prepend : List Json → List Json → List Json
    prepend [] rest = rest
    prepend (v ∷ vs) rest = v ∷ rest

module _ (repr : String → String) (T : Transport) (origin : String) (system_uri : String)
    (query : String → Exec T.State Exn Json) (boot_sources : Exec T.State Exn (List (Dict Json)))
    (power_on reboot : Exec T.State Exn CommandResult)
    (fetch_task : Json → Exec T.State Exn Json) where
  unfoldable pub require_device : String → Json → Option String → Exec T.State Exn String
  unfolding to_text
  require_device device devices none = raise (
      invalid_argument
        ("Invalid boot device " <> (device <> (", supported device " <> to_text repr devices))))
  require_device device devices (some d) = pure d

  abbrev pub check_mode : Option String → Exec T.State Exn Unit
  check_mode none = pure tt
  check_mode (some mode) =
      if contains mode ("UEFI" ∷ "Legacy" ∷ [])
      then pure tt
      else raise (
          invalid_argument
            ("Invalid boot mode " <> (mode <> ", supported modes ['UEFI', 'Legacy']")))

  unfoldable pub check_path : Json → String → List (Dict Json) → Exec T.State Exn Unit
  unfolding uefi_paths to_text
  check_path devices target members =
      if contains target (texts_in (uefi_paths members))
      then pure tt
      else raise (
          invalid_argument (
            "Invalid uefi device path "
            <> (target <> (", supported uefi devices " <> to_text repr devices))))

  unfoldable pub check_uefi_target : Json → Option String → Exec T.State Exn Unit
  unfolding check_path
  check_uefi_target devices none = pure tt
  check_uefi_target devices (some target) = boot_sources >>= check_path devices target

  abbrev failed_with : Json → CommandError → CommandResult
  failed_with value e = record { data_of = value; error = some e }

  abbrev pub preview_of : BootOptions → Json → CommandResult
  preview_of o payload = record {
    data_of = object (
        ("dry_run", bool true)
        ∷ ("target", str system_uri)
        ∷ ("payload", payload)
        ∷ ("blocked", if o.dry_run then null else str "one-time boot requires confirm")
        ∷ []);
    error = none;
  }

  -- What follows the PATCH: the task it started.
  abbrev with_task : CommandResult × RedfishApiRespond → Exec T.State Exn CommandResult
  unfolding get with_field
  with_task (result, accepted_task_generated) =
      fetch_task (get (as_system result.data_of) "task_id") >>= λ state.
      pure (record { data_of = with_field "task_state" state result.data_of; error = result.error })
  with_task (result, status) = pure result

  abbrev after_reboot :
      CommandResult → Result Exn CommandResult × T.State → Result Exn CommandResult × T.State
  unfolding with_field exn_text
  after_reboot result (raised e, t) =
      if is_reset_error e
      then (
        ok (
            failed_with (with_field "reboot_error" (str (exn_text repr e)) result.data_of)
              (message ("reboot post-step failed: " <> exn_text repr e))),
        t,
      )
      else (raised e, t)
  after_reboot result (ok reply, t) = (
    ok (record {
      data_of = with_field "reboot" reply.data_of result.data_of;
      error = if is_some reply.error then reply.error else result.error;
    }),
    t,
  )

  abbrev with_reboot : Bool → CommandResult → Exec T.State Exn CommandResult
  unfolding after_reboot
  with_reboot do_reboot result s =
      if do_reboot then after_reboot result (reboot s) else (ok result, s)

  unfoldable pub patch_boot : BootOptions → Json → Exec T.State Exn CommandResult
  unfolding base_patch with_task with_reboot
  patch_boot o payload =
      base_patch repr T origin system_uri payload >>= with_task >>= with_reboot o.do_reboot

  -- The pre-step; its failure ends the command.
  abbrev after_power_on :
      BootOptions → Json → Result Exn CommandResult × T.State → Result Exn CommandResult × T.State
  unfolding exn_text patch_boot
  after_power_on o payload (raised e, t) =
      if is_reset_error e
      then (
        ok (
            failed_with (object (("target", str system_uri) ∷ ("payload", payload) ∷ []))
              (message ("power-on pre-step failed: " <> exn_text repr e))),
        t,
      )
      else (raised e, t)
  after_power_on o payload (ok reply, t) =
      if is_some reply.error then (ok reply, t) else patch_boot o payload t

  unfoldable pub write_boot : BootOptions → Json → Exec T.State Exn CommandResult
  unfolding after_power_on patch_boot
  write_boot o payload s =
      if o.do_power_on then after_power_on o payload (power_on s) else patch_boot o payload s

  unfoldable pub boot_one_shot : BootOptions → Exec T.State Exn CommandResult
  unfolding boot_devices resolve_boot_device require_device check_uefi_target boot_payload
      write_boot
  boot_one_shot o = query system_uri >>= λ body. lift (boot_devices (as_system body)) >>= λ devices.
      require_device o.device devices (resolve_boot_device o.device devices) >>= λ device.
      check_mode o.mode >>= λ _. check_uefi_target devices o.uefi_target >>= λ _.
      lift (hashed devices) >>= λ _.
      let payload = boot_payload repr device o.mode o.uefi_target devices (as_system body) in
      if o.dry_run || not o.confirm then pure (preview_of o payload) else write_boot o payload
