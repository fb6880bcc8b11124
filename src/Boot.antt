-- ===== src/Boot.antt =====
-- redfish_ctl/boot_source/cmd_boot_one_shot.py: the device and the payload of a one-time boot.
pub mod OneShot
pub mod Payload
pub mod Preview
mod Tests
use redfish_ctl.Common.{
  ℕ, zero, suc, String, ◌<>◌, Bool, true, false, not, ◌&&◌, ◌||◌, Option, none, some, List, [], ◌∷◌,
  ◌++◌, ◌==◌, leb, ltb, ◌=?◌, if◌then◌else◌, any, contains,
}
use Prim.Native.String.{count}
use redfish_ctl.Common.Dict.{Dict, lookup, keys}
use redfish_ctl.Common.Int.{ℤ, pos, negsuc, int_of_text}
use redfish_ctl.Common.Text.{split, occurs, first_of}
use redfish_ctl.Config.{lowers, holds_word}
use redfish_ctl.Json.{Json, str, list, dict, elems, props, object, to_text}
use text.Mathlib.Text.{starts_with}

-- _BOOT_TARGET_ALIASES.get(device, ())
abbrev pub boot_target_aliases : String → List String
boot_target_aliases device =
    if device == "Cd" then "Cd" ∷ "CD/DVD" ∷ "UsbCd" ∷ "UefiCd" ∷ "UefiUsbCd" ∷ [] else []

abbrev pub legacy_flat_boot_targets : List String
legacy_flat_boot_targets =
    "CD/DVD" ∷ "FloppyRemovableMedia" ∷ "UsbKey" ∷ "UsbHdd" ∷ "UsbFloppy" ∷ []

abbrev pub texts_in : List Json → List String
texts_in [] = []
texts_in (str t ∷ vs) = t ∷ texts_in vs
texts_in (_ ∷ vs) = texts_in vs

-- d in devices: of a list, of the keys of a dict, or of a text, which may hold `d` anywhere. `in` raises
-- for any other value, before it comes to this.
unfoldable pub advertises : String → Json → Bool
unfolding occurs
advertises d (list vs) = contains d (texts_in (elems vs))
advertises d (dict fs) = contains d (keys (props fs))
advertises d (str t) = occurs d t
advertises d _ = false

-- The texts in set(devices). Those of a text are single characters, and none of these is a target.
abbrev pub members : Json → List String
members (list vs) = texts_in (elems vs)
members (dict fs) = keys (props fs)
members _ = []

unfoldable pub first_in : List String → Json → Option String
unfolding advertises
first_in [] devices = none
first_in (c ∷ candidates) devices =
    if advertises c devices then some c else first_in candidates devices

-- The device to send, if there is one among those advertised.
unfoldable pub resolve_boot_device : String → Json → Option String
unfolding advertises first_in
resolve_boot_device device devices =
    if advertises device devices then some device else first_in (boot_target_aliases device) devices

-- The rest of a text from a number of characters on.
abbrev drop_chars : ℕ → String → String
drop_chars zero s = s
drop_chars (suc n) String.[] = ""
drop_chars (suc n) (String.◌∷◌ c s) = drop_chars n s

-- s.split(marker, 1)[1], where the marker occurs
unfoldable pub after_marker : String → String → String
after_marker marker String.[] = ""
after_marker marker (String.◌∷◌ c s) =
    let rest = after_marker marker s in
    if starts_with (String.◌∷◌ c s) marker then drop_chars (count marker) (String.◌∷◌ c s) else rest

abbrev le_ℤ : ℤ → ℕ → Bool
le_ℤ (pos n) m = leb n m
le_ℤ (negsuc n) m = true

abbrev is_ℕ : ℤ → ℕ → Bool
is_ℕ (pos n) m = n =? m
is_ℕ (negsuc n) m = false

-- (a, b) <= (major, minor), where both are numbers
abbrev at_most : ℕ → ℕ → Option ℤ → Option ℤ → Bool
at_most major minor (some a) (some b) =
    (le_ℤ a major && not (is_ℕ a major)) || (is_ℕ a major && le_ℤ b minor)
at_most major minor _ _ = false

abbrev parts_at_most : ℕ → ℕ → List String → Bool
unfolding int_of_text
parts_at_most major minor (a ∷ b ∷ rest) = at_most major minor (int_of_text a) (int_of_text b)
parts_at_most major minor _ = false

module _ (repr : String → String) where
  -- str(system.get(key, ""))
  abbrev field_text : Dict Json → String → String
  unfolding lookup to_text
  field_text system key = or_blank (lookup key system)
    where
      or_blank : Option Json → String
      or_blank none = ""
      or_blank (some v) = to_text repr v

  unfoldable pub computer_system_version_at_most : Dict Json → ℕ → ℕ → Bool
  unfolding field_text occurs after_marker split parts_at_most
  computer_system_version_at_most system major minor =
      let type_name = field_text system "@odata.type" in
      if occurs "#ComputerSystem.v" type_name
      then parts_at_most major minor
          (split b'_' (first_of "" (split b'.' (after_marker "#ComputerSystem.v" type_name))))
      else false

  unfoldable pub use_legacy_flat_payload : Json → Dict Json → Bool
  unfolding field_text lowers holds_word computer_system_version_at_most
  use_legacy_flat_payload devices system =
      if any (λ d. contains d legacy_flat_boot_targets) (members devices)
      then (if holds_word (lowers "supermicro") (lowers (field_text system "Manufacturer"))
          then computer_system_version_at_most system 1 3
          else false)
      else false

  abbrev pub optional_field : String → Option String → Dict Json
  optional_field key none = []
  optional_field key (some t) = (key, str t) ∷ []

  abbrev pub required_fields : String → Dict Json
  required_fields device =
      ("BootSourceOverrideEnabled", str (if device == "None" then "Disabled" else "Once"))
      ∷ ("BootSourceOverrideTarget", str device)
      ∷ []

  unfoldable pub boot_payload : String → Option String → Option String → Json → Dict Json → Json
  unfolding use_legacy_flat_payload
  boot_payload device mode uefi_target devices system =
      if use_legacy_flat_payload devices system
      then object (required_fields device)
      else object (
          (
            "Boot",
            object (
                required_fields device
                ++ (optional_field "BootSourceOverrideMode" mode
                    ++ optional_field "UefiTargetBootSourceOverride" uefi_target)),
          )
          ∷ [])
