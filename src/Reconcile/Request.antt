-- ===== src/Reconcile/Request.antt =====
-- redfish_ctl/reconcile.py: the commands that a reconciliation issues, and their answers.
use redfish_ctl.Common.{String, Bool, true, false, not, ◌&&◌, Option, [], ◌∷◌}
use redfish_ctl.Common.Dict.{Dict}
use redfish_ctl.Common.Effect.{Exec}
use redfish_ctl.Json.{Json, bool, str, texts, optional}
use redfish_ctl.Reconcile.Desired.{DesiredState, ReconcileError}

-- The members of `ApiRequestType` that reconciliation uses.
pub data ApiRequestType : Type 0 where
  bios_profile manager_network_protocol ntp_set current_boot boot_one_shot computer_system_reset :
      ApiRequestType

-- A call `sync_invoke(api_call, name, **kwargs)`.
pub record Request : Type 0 where
  pub api_call : ApiRequestType
  pub name : String
  pub kwargs : Dict Json

-- `result.error` is the text of a true error.
pub record Reply : Type 0 where
  pub data_of : Json
  pub error : Option String

-- api.py: SyncInvoker.
pub record SyncInvoker : Type 1 where
  pub State : Type 0
  pub sync_invoke : Request → Exec State ReconcileError Reply

pub record Flags : Type 0 where
  pub confirm : Bool
  pub wait_for_reboot : Bool
  pub async_call : Bool

abbrev pub diff_request : Option String → Request
diff_request profile = record {
  api_call = bios_profile;
  name = "bios-profile";
  kwargs = ("action", str "diff") ∷ ("profile_name", optional profile) ∷ [];
}

abbrev pub apply_request : Option String → Request
apply_request profile = record {
  api_call = bios_profile;
  name = "bios-profile";
  kwargs =
      ("action", str "apply")
      ∷ ("profile_name", optional profile)
      ∷ ("confirm", bool true)
      ∷ ("dry_run", bool false)
      ∷ [];
}

abbrev pub network_request : Request
network_request = record {
  api_call = manager_network_protocol;
  name = "manager-network";
  kwargs = [];
}

abbrev pub ntp_request : DesiredState → Bool → Request
ntp_request state confirm = record {
  api_call = ntp_set;
  name = "ntp-set";
  kwargs =
      ("servers", texts state.ntp_servers)
      ∷ ("manager_id", optional state.ntp_manager_id)
      ∷ ("confirm", bool confirm)
      ∷ [];
}

abbrev pub boot_query : Request
boot_query = record { api_call = current_boot; name = "current_boot_query"; kwargs = [] }

abbrev pub boot_request : DesiredState → Request
boot_request state = record {
  api_call = boot_one_shot;
  name = "boot_one_shot";
  kwargs =
      ("device", optional state.boot_device)
      ∷ ("mode", optional state.boot_mode)
      ∷ ("uefi_target", optional state.uefi_target)
      ∷ ("do_reboot", bool false)
      ∷ [];
}

abbrev pub reset_request : DesiredState → Flags → Request
reset_request state flags = record {
  api_call = computer_system_reset;
  name = "reboot";
  kwargs =
      ("reset_type", optional state.reset_type)
      ∷ ("dry_run", bool (not flags.confirm))
      ∷ ("do_wait", bool (flags.wait_for_reboot && flags.confirm))
      ∷ ("do_async", bool flags.async_call)
      ∷ [];
}
