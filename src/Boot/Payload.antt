-- ===== src/Boot/Payload.antt =====
-- redfish_ctl/boot_source/cmd_boot_one_shot.py: the target that a one-time boot sends.
use redfish_ctl.Common.{
  String, ◌≡◌, ◌⊎◌, inl, inr, refl, sym, not, is_some, Bool, true, false, Option, none, some, List,
  [], ◌∷◌, ◌==◌, arith, eq_iff, Bool-cases, if◌then◌else◌, contains,
}
use mathlib.Core.Path.{subst}
use redfish_ctl.Common.Dict.{Dict, lookup}
use redfish_ctl.Json.{Json, str, get, mapping}
use redfish_ctl.Boot.{
  advertises, boot_target_aliases, first_in, resolve_boot_device, use_legacy_flat_payload,
  boot_payload,
}

-- The boot settings of a payload: those in its Boot object, or those at its top.
abbrev pub settings_of : Json → Dict Json
unfolding lookup
settings_of payload = choose (lookup "Boot" (mapping payload))
  where
    choose : Option Json → Dict Json
    choose none = mapping payload
    choose (some boot) = mapping boot

some_inj : {a b : String} → some a ≡ some b → a ≡ b
some_inj h = cc

first_in-advertises :
    (candidates : List String) (devices : Json) (d : String)
    → first_in candidates devices ≡ some d
    → (contains d candidates ≡ true) × (advertises d devices ≡ true)
unfolding first_in
first_in-advertises [] devices d h = absurd cc
first_in-advertises (c ∷ candidates) devices d h = elim (Bool-cases (advertises c devices)) [
  | inl here ↦
      let same = some_inj (rw here at h) in
      (ground (arith, eq_iff c d), subst (λ x. advertises x devices ≡ true) same here)
  | inr later ↦
      let rest = first_in-advertises candidates devices d (rw later at h) in
      (ground (arith, rest), rest.1)
]

-- The target that is sent is one that the system advertises: the device asked for, or an alias of it. The
-- payload has it as its target, at the place where the system reads it, enabled once, and disabled
-- exactly if the target is None.
pub boot_payload_target :
    (repr : String → String) (device d : String) (mode uefi_target : Option String) (devices : Json)
    (system : Dict Json)
    → resolve_boot_device device devices ≡ some d
    → let payload = boot_payload repr d mode uefi_target devices system in
      (advertises d devices ≡ true)
      × ((d ≡ device) ⊎ (contains d (boot_target_aliases device) ≡ true))
      × (get (settings_of payload) "BootSourceOverrideTarget" ≡ str d)
      × (get (settings_of payload) "BootSourceOverrideEnabled"
          ≡ str (if d == "None" then "Disabled" else "Once"))
      × (use_legacy_flat_payload repr devices system
          ≡ not (is_some (lookup "Boot" (mapping payload))))
unfolding resolve_boot_device boot_payload settings_of get lookup
boot_payload_target repr device d mode uefi_target devices system h =
    let (advertised, asked) = resolved (advertises device devices) refl in
    elim (Bool-cases (use_legacy_flat_payload repr devices system)) [
      | inl flat ↦ (advertised, asked, rw flat refl, rw flat refl, rw flat refl)
      | inr nested ↦ (advertised, asked, rw nested refl, rw nested refl, rw nested refl)
    ]
  where
    resolved :
        (b : Bool)
        → advertises device devices ≡ b
        → (advertises d devices ≡ true)
          × ((d ≡ device) ⊎ (contains d (boot_target_aliases device) ≡ true))
    resolved true e =
        let same = some_inj (rw e at h) in
        (subst (λ x. advertises x devices ≡ true) same e, inl (sym same))
    resolved false e =
        let (alias, advertised) =
          first_in-advertises (boot_target_aliases device) devices d (rw e at h) in
        (advertised, inr alias)
