-- ===== src/Boot/Tests.antt =====
-- Runs of boot-one-shot on a system that boots from a virtual CD.
use redfish_ctl.Common.{
  ◌≡◌, ◌⊎◌, refl, String, Bool, true, false, not, none, some, List, [], ◌∷◌, ◌==◌, if◌then◌else◌,
  contains, is_some,
}
use redfish_ctl.Common.Dict.{Dict, lookup}
use redfish_ctl.Common.Effect.{Result, Exec, ok}
use redfish_ctl.Common.Effect.Safe.{Holds}
use redfish_ctl.Json.{Json, str, object, texts, get, mapping, null}
use redfish_ctl.Http.{Exn, invalid_argument, Response, Transport, CommandResult, decoded}
use redfish_ctl.Boot.{
  advertises, boot_target_aliases, resolve_boot_device, use_legacy_flat_payload, boot_payload,
}
use redfish_ctl.Boot.OneShot.{BootOptions, boot_one_shot}
use redfish_ctl.Boot.Payload.{settings_of, boot_payload_target}
use redfish_ctl.Boot.Preview.{IsPreviewOf, boot_one_shot_preview}

abbrev plain : String → String
plain t = t

abbrev devices : Json
devices = texts ("Pxe" ∷ "UsbCd" ∷ [])

abbrev old_system : Dict Json
old_system =
    ("@odata.type", str "#ComputerSystem.v1_3_0.ComputerSystem")
    ∷ ("Manufacturer", str "Supermicro")
    ∷ ("BootSourceOverrideTarget@Redfish.AllowableValues", texts ("CD/DVD" ∷ "Pxe" ∷ []))
    ∷ []

flat_payload :
    boot_payload plain "CD/DVD" (some "UEFI") none (texts ("CD/DVD" ∷ "Pxe" ∷ [])) old_system
    ≡ object (
        ("BootSourceOverrideEnabled", str "Once") ∷ ("BootSourceOverrideTarget", str "CD/DVD") ∷ [])
unfolding boot_payload
flat_payload = refl

alias_resolves : resolve_boot_device "Cd" devices ≡ some "UsbCd"
unfolding resolve_boot_device
alias_resolves = refl

text_of_devices : resolve_boot_device "Pxe" (str "Hdd,Pxe") ≡ some "Pxe"
unfolding resolve_boot_device
text_of_devices = refl

boot_payload_target_example :
    (advertises "UsbCd" devices ≡ true)
    × ((◌≡◌ {A = String} "UsbCd" "Cd") ⊎ (contains "UsbCd" (boot_target_aliases "Cd") ≡ true))
    × (get
          (settings_of (boot_payload plain "UsbCd" (some "UEFI") none devices []))
          "BootSourceOverrideTarget"
        ≡ str "UsbCd")
    × (get
          (settings_of (boot_payload plain "UsbCd" (some "UEFI") none devices []))
          "BootSourceOverrideEnabled"
        ≡ str (if "UsbCd" == "None" then "Disabled" else "Once"))
    × (use_legacy_flat_payload plain devices []
        ≡ not (
            is_some
              (lookup "Boot" (mapping (boot_payload plain "UsbCd" (some "UEFI") none devices [])))))
boot_payload_target_example =
    boot_payload_target plain "Cd" "UsbCd" (some "UEFI") none devices [] alias_resolves

abbrev system : Json
system =
    object
      (("Boot", object (("BootSourceOverrideTarget@Redfish.AllowableValues", devices) ∷ [])) ∷ [])

abbrev accepted : Response
accepted = record {
  status_code = 204;
  location = none;
  retry_after = none;
  body = decoded (object []);
}

abbrev recorder : Transport
recorder = record { State = List String; send = λ method url payload log. (ok accepted, url ∷ log) }

abbrev query : String → Exec (List String) Exn Json
query uri log = (ok system, log)

abbrev members : Exec (List String) Exn (List (Dict Json))
members log = (ok [], log)

abbrev reset : Exec (List String) Exn CommandResult
reset log = (ok (record { data_of = object []; error = none }), "reset" ∷ log)

abbrev task : Json → Exec (List String) Exn Json
task id log = (ok null, log)

abbrev options : Bool → BootOptions
options confirm = record {
  device = "Cd";
  uefi_target = none;
  mode = some "UEFI";
  do_reboot = true;
  do_power_on = true;
  dry_run = false;
  confirm = confirm;
}

one_patch_between_resets :
    (boot_one_shot plain recorder "https://bmc" "/Systems/1" query members reset reset task
      (options true)
      []).1
    ≡ "reset" ∷ "https://bmc/Systems/1" ∷ "reset" ∷ []
unfolding boot_one_shot redfish_ctl.Http.Status.default_error_handler
one_patch_between_resets = refl

abbrev refusing : Transport
refusing = record {
  State = List String;
  send = λ method url payload log. (
    ok (record {
      status_code = 409;
      location = none;
      retry_after = none;
      body = decoded (object []);
    }),
    url ∷ log,
  );
}

-- A PATCH that is refused does not hold the reboot back.
refused_and_reset :
    (boot_one_shot plain refusing "https://bmc" "/Systems/1" query members reset reset task
      (record (options true) { do_power_on = false })
      []).1
    ≡ "reset" ∷ "https://bmc/Systems/1" ∷ []
unfolding boot_one_shot
refused_and_reset = refl

abbrev IsQuiet : List String → Type 0
IsQuiet log = log ≡ []

abbrev shown : Result Exn CommandResult × List String
shown =
    boot_one_shot plain recorder "https://bmc" "/Systems/1" query members reset reset task
      (options false) []

boot_one_shot_preview_example :
    IsQuiet shown.1
    × Holds
        (IsPreviewOf plain recorder "https://bmc" "/Systems/1" query members reset reset task
          IsQuiet
          (options false)
          (query "/Systems/1" []).0)
        shown.0
boot_one_shot_preview_example =
    boot_one_shot_preview plain recorder "https://bmc" "/Systems/1" query members reset reset task
      IsQuiet (options false) refl (record { run = λ s p. (p, tt) })
      (record { run = λ s p. (p, tt) }) [] refl
