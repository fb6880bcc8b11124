-- ===== src/Reconcile/Desired.antt =====
-- redfish_ctl/reconcile.py: DesiredState and the functions that read it from a mapping.
use redfish_ctl.Common.{String, true, false, Option, none, some, List, [], ◌∷◌, map, if◌then◌else◌}
use redfish_ctl.Common.Dict.{Dict, lookup}
use redfish_ctl.Common.Effect.{Result, ok, raised, ◌>>=ᴿ◌}
use redfish_ctl.Common.Text.{is_empty, split, strip}
use redfish_ctl.Json.{Json, null, bool, str, truthy, mapping, get, to_text}
use redfish_ctl.Http.Error.{list_of}

pub record DesiredState : Type 0 where
  pub bios_profile : Option String
  pub ntp_servers : List String
  pub ntp_manager_id : Option String
  pub boot_device : Option String
  pub boot_mode : Option String
  pub uefi_target : Option String
  pub reset_type : Option String

-- `api_error` is a `RedfishApiError`; `invoke_error` stands for what an invoker raises itself.
pub data ReconcileError : Type 0 where
  value_error type_error api_error invoke_error : String → ReconcileError

-- _first
unfoldable pub first : Dict Json → List String → Json
unfolding lookup
first m [] = null
first m (key ∷ ks) = elim (lookup key m) [ none ↦ first m ks | some v ↦ v ]

abbrev some_text : String → Option String
some_text text = if is_empty text then none else some text

-- a or b
abbrev or_else : Json → Json → Json
or_else a b = if truthy a then a else b

module _ (repr : String → String) where
  -- _optional_str
  unfoldable pub optional_str : Json → Option String
  unfolding strip to_text
  optional_str null = none
  optional_str v = some_text (strip (to_text repr v))

  abbrev stripped : List String → List String
  stripped [] = []
  stripped (t ∷ ts) =
      let rest = stripped ts in let item = strip t in if is_empty item then rest else item ∷ rest

  -- _str_tuple, where iterating over a number raises
  unfoldable pub str_tuple : Json → Result ReconcileError (List String)
  unfolding strip to_text split
  str_tuple null = ok []
  str_tuple (str s) = ok (stripped (split b',' s))
  str_tuple v = elim (list_of v) [
    | none ↦ raised (type_error "object is not iterable")
    | some values ↦ ok (stripped (map (to_text repr) values))
  ]

  -- What a mapping says of the reset.
  named_reset : Json → Result ReconcileError (Option String)
  unfolding optional_str
  named_reset null = ok none
  named_reset (str s) = ok (optional_str (str s))
  named_reset v = raised (value_error "reboot.resetType must be an explicit string")

  -- _reset_type; `reboot` is the mapping that the spec is, or an empty one
  unfoldable pub read_reset_type : Json → Dict Json → Result ReconcileError (Option String)
  unfolding named_reset first
  read_reset_type (str s) reboot = ok (optional_str (str s))
  read_reset_type (bool true) reboot =
      raised (value_error "reboot.resetType must be an explicit string")
  read_reset_type (bool false) reboot = ok none
  read_reset_type spec reboot = named_reset (first reboot ("resetType" ∷ "reset_type" ∷ []))

  -- DesiredState.from_mapping
  unfoldable pub from_mapping : Dict Json → Result ReconcileError DesiredState
  unfolding first optional_str str_tuple read_reset_type get
  from_mapping spec =
      let ntp = mapping (get spec "ntp") in
      let boot = mapping (get spec "boot") in
      let reboot_spec = get spec "reboot" in
      str_tuple
        (or_else (first ntp ("servers" ∷ [])) (first spec ("ntpServers" ∷ "ntp_servers" ∷ [])))
      >>=ᴿ λ servers. read_reset_type reboot_spec (mapping reboot_spec) >>=ᴿ λ reset. ok (record {
        bios_profile = optional_str (first spec ("biosProfile" ∷ "bios_profile" ∷ []));
        ntp_servers = servers;
        ntp_manager_id = optional_str (first ntp ("manager" ∷ "managerId" ∷ "manager_id" ∷ []));
        boot_device = optional_str (first boot ("device" ∷ []));
        boot_mode = optional_str (first boot ("mode" ∷ []));
        uefi_target = optional_str (first boot ("uefiTarget" ∷ "uefi_target" ∷ []));
        reset_type = reset;
      })
