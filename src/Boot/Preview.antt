-- ===== src/Boot/Preview.antt =====
-- redfish_ctl/boot_source/cmd_boot_one_shot.py: BootOneShot.execute as a dry run, or without confirm.
use redfish_ctl.Common.{
  ◌≡◌, refl, String, not, ◌||◌, Option, none, some, List, [], ◌∷◌, contains, arith, if◌then◌else◌,
  true,
}
use redfish_ctl.Common.Dict.{Dict}
use redfish_ctl.Common.Effect.{Result, ok, raised, Exec, lift, pure, ◌>>=◌}
use redfish_ctl.Common.Effect.Safe.{
  Safe, Holds, Safe-pure, Safe-raise, Safe-if, Safe-bind, Safe-bind-lift,
}
use redfish_ctl.Json.{Json}
use redfish_ctl.Http.{Exn, Transport, CommandResult}
use redfish_ctl.Boot.{texts_in, resolve_boot_device, boot_payload}
use redfish_ctl.Boot.OneShot.{
  BootOptions, boot_devices, as_system, require_device, check_mode, check_path, check_uefi_target,
  preview_of, write_boot, hashed, uefi_paths, boot_one_shot,
}

module _ (repr : String → String) (T : Transport) (origin : String) (system_uri : String)
    (query : String → Exec T.State Exn Json) (boot_sources : Exec T.State Exn (List (Dict Json)))
    (power_on reboot : Exec T.State Exn CommandResult) (fetch_task : Json → Exec T.State Exn Json)
    (P : T.State → Type 0) where
  -- A preview of a payload for a device that the system of a read advertises and that the options ask for.
  abbrev pub IsPreviewOf : BootOptions → Result Exn Json → CommandResult → Type 0
  IsPreviewOf o read r =
      (body : Json) × (devices : Json) × (device : String) × (read ≡ ok body)
      × (boot_devices (as_system body) ≡ ok devices)
      × (resolve_boot_device o.device devices ≡ some device)
      × (r
          ≡ preview_of repr T origin system_uri query boot_sources power_on reboot fetch_task o
              (boot_payload repr device o.mode o.uefi_target devices (as_system body)))

  Safe-require_device :
      (device : String) (devices : Json) (d : Option String)
      → Safe P
          (λ found. d ≡ some found)
          (require_device repr T origin system_uri query boot_sources power_on reboot fetch_task
            device devices d)
  unfolding require_device
  Safe-require_device device devices none = Safe-raise _
  Safe-require_device device devices (some d) = Safe-pure d refl

  Safe-check_mode :
      (mode : Option String)
      → Safe P
          (λ u. Unit)
          (check_mode repr T origin system_uri query boot_sources power_on reboot fetch_task mode)
  Safe-check_mode none = Safe-pure tt tt
  Safe-check_mode (some mode) =
      Safe-if (contains mode ("UEFI" ∷ "Legacy" ∷ [])) _ _ (λ h. Safe-pure tt tt)
        (λ h. Safe-raise _)

  Safe-check_uefi_target :
      (devices : Json) (target : Option String)
      → Safe P (λ members. Unit) boot_sources
      → Safe P
          (λ u. Unit)
          (check_uefi_target repr T origin system_uri query boot_sources power_on reboot fetch_task
            devices target)
  unfolding check_uefi_target check_path
  Safe-check_uefi_target devices none h = Safe-pure tt tt
  Safe-check_uefi_target devices (some target) h =
      Safe-bind (λ members. Unit) boot_sources _ h
        (λ members u.
          Safe-if (contains target (texts_in (uefi_paths members))) _ _ (λ h. Safe-pure tt tt)
            (λ h. Safe-raise _))

  -- What boot-one-shot does with the system that it has read.
  abbrev on_body : BootOptions → Json → Exec T.State Exn CommandResult
  on_body o body = lift (boot_devices (as_system body)) >>= λ devices.
      require_device repr T origin system_uri query boot_sources power_on reboot fetch_task o.device
        devices (resolve_boot_device o.device devices)
      >>= λ device.
          check_mode repr T origin system_uri query boot_sources power_on reboot fetch_task o.mode
          >>= λ _.
              check_uefi_target repr T origin system_uri query boot_sources power_on reboot
                fetch_task devices o.uefi_target
              >>= λ _. lift (hashed devices) >>= λ _.
                  let payload =
                    boot_payload repr device o.mode o.uefi_target devices (as_system body) in
                  if o.dry_run || not o.confirm
                  then pure (
                      preview_of repr T origin system_uri query boot_sources power_on reboot
                        fetch_task o payload)
                  else write_boot repr T origin system_uri query boot_sources power_on reboot
                      fetch_task o payload

  Safe-on_body :
      (o : BootOptions) (body : Json)
      → (o.dry_run || not o.confirm) ≡ true
      → Safe P (λ members. Unit) boot_sources
      → Safe P (IsPreviewOf o (ok body)) (on_body o body)
  Safe-on_body o body held sources =
      Safe-bind-lift (boot_devices (as_system body)) _ (λ devices known.
        Safe-bind (λ device. resolve_boot_device o.device devices ≡ some device)
          (require_device repr T origin system_uri query boot_sources power_on reboot fetch_task
            o.device devices (resolve_boot_device o.device devices))
          _ (Safe-require_device o.device devices (resolve_boot_device o.device devices))
          (λ device found.
            Safe-bind (λ u. Unit)
              (check_mode repr T origin system_uri query boot_sources power_on reboot fetch_task
                o.mode)
              _ (Safe-check_mode o.mode)
              (λ u u'.
                Safe-bind (λ u. Unit)
                  (check_uefi_target repr T origin system_uri query boot_sources power_on reboot
                    fetch_task devices o.uefi_target)
                  _ (Safe-check_uefi_target devices o.uefi_target sources)
                  (λ v v'. Safe-bind-lift (hashed devices) _ (λ w sound.
                    Safe-if (o.dry_run || not o.confirm) _ _
                      (λ h. Safe-pure _ (body, devices, device, refl, known, found, refl))
                      (λ h. absurd (ground arith)))))))

  after_query :
      (o : BootOptions) (p : Result Exn Json × T.State)
      → (o.dry_run || not o.confirm) ≡ true
      → Safe P (λ members. Unit) boot_sources
      → P p.1
      → let q = (lift p.0 >>= on_body o) p.1 in P q.1 × Holds (IsPreviewOf o p.0) q.0
  after_query o (raised e, t) held sources kept = (kept, tt)
  after_query o (ok body, t) held sources kept = (Safe-on_body o body held sources).run t kept

  -- As a dry run, or without confirm, whatever property of the outer world the two reads keep is kept by
  -- boot-one-shot, also by one that raises, whatever else it is asked to do; what it returns is a
  -- preview of the payload for a device that the system which it has just read advertises.
  pub boot_one_shot_preview :
      (o : BootOptions)
      → (o.dry_run || not o.confirm) ≡ true
      → Safe P (λ body. Unit) (query system_uri)
      → Safe P (λ members. Unit) boot_sources
      → (s : T.State) → P s
      → let q =
          boot_one_shot repr T origin system_uri query boot_sources power_on reboot fetch_task o
            s in
        P q.1 × Holds (IsPreviewOf o (query system_uri s).0) q.0
  unfolding boot_one_shot
  boot_one_shot_preview o held reads sources s kept =
      after_query o (query system_uri s) held sources (reads.run s kept).0
