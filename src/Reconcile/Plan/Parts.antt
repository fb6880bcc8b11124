-- ===== src/Reconcile/Plan/Parts.antt =====
-- The contract of each part of a reconciliation, for the laws of the whole.
use redfish_ctl.Common.{String, ◌≡◌, refl, Bool, true, false, not, ◌&&◌, ◌||◌, ◌++◌, arith}
use redfish_ctl.Common.Effect.{Exec}
use redfish_ctl.Common.Effect.Safe.{Safe, Safe-pure, Safe-if, Safe-bind, Safe-lift}
use redfish_ctl.Json.{truthy, get, mapping}
use redfish_ctl.Reconcile.Desired.{DesiredState, ReconcileError}
use redfish_ctl.Reconcile.Match.{is_set, ntp_already_matches, boot_already_matches}
use redfish_ctl.Reconcile.Request.{
  Request, SyncInvoker, Flags, diff_request, apply_request, network_request, ntp_request,
  boot_query, boot_request, reset_request,
}
use redfish_ctl.Reconcile.Plan.{
  Entries, invoke_data, invoke_mapping, invoke_rows, reply_data, mapping_rows,
  reconcile_bios_profile, reconcile_ntp, reconcile_boot, reconcile_reboot, when, is_nonempty,
  reconcile,
}
use redfish_ctl.Reconcile.Plan.Contract.{
  plans_only, IsPart, justified-append, kinds-append, IsPlanOf,
}

module _ (repr : String → String) (M : SyncInvoker) (P : M.State → Type 0) where
  module _ (r : Request) (call : Safe P (λ reply. Unit) (M.sync_invoke r)) where
    invoke_data-Safe : Safe P (λ v. Unit) (invoke_data repr M r)
    unfolding invoke_data
    invoke_data-Safe = Safe-bind (λ reply. Unit) _ _ call (λ reply _. Safe-lift (reply_data reply))

    invoke_mapping-Safe : Safe P (λ v. Unit) (invoke_mapping repr M r)
    unfolding invoke_mapping
    invoke_mapping-Safe =
        Safe-bind (λ v. Unit) _ _ invoke_data-Safe (λ v _. Safe-pure (mapping v) tt)

    invoke_rows-Safe : Safe P (λ v. Unit) (invoke_rows repr M r)
    unfolding invoke_rows
    invoke_rows-Safe =
        Safe-bind (λ v. Unit) _ _ invoke_data-Safe (λ v _. Safe-pure (mapping_rows v) tt)

  module _ (state : DesiredState) (flags : Flags)
      (keeps : (r : Request)
        → (flags.confirm || plans_only r) ≡ true
        → Safe P (λ reply. Unit) (M.sync_invoke r)) where
    -- A command that only plans is admitted in any case.
    planning : (r : Request) → plans_only r ≡ true → Safe P (λ reply. Unit) (M.sync_invoke r)
    planning r h = keeps r (ground arith)

    confirmed : (r : Request) → flags.confirm ≡ true → Safe P (λ reply. Unit) (M.sync_invoke r)
    confirmed r h = keeps r (ground arith)

    bios_profile-Safe :
        Safe P
          (IsPart "bios-profile" true flags.confirm)
          (reconcile_bios_profile repr M state flags.confirm)
    unfolding reconcile_bios_profile plans_only
    bios_profile-Safe =
        Safe-bind (λ v. Unit) _ _
          (invoke_mapping-Safe (diff_request state.bios_profile) (planning _ refl))
          λ diff _.
            Safe-if (flags.confirm && not (truthy (get diff "matches"))) _ _
              (λ go.
                Safe-bind (λ v. Unit) _ _
                  (invoke_mapping-Safe (apply_request state.bios_profile)
                    (confirmed _ (ground arith)))
                  λ result _. Safe-pure _ (record {
                    one_step = refl;
                    answered = ground arith;
                    planned = λ c. ground arith;
                  }))
              (λ stop.
                Safe-pure _ (record { one_step = refl; answered = refl; planned = λ c. refl }))

    ntp-Safe : Safe P (IsPart "ntp" true flags.confirm) (reconcile_ntp repr M state flags.confirm)
    unfolding reconcile_ntp plans_only
    ntp-Safe =
        Safe-bind (λ v. Unit) _ _ (invoke_rows-Safe network_request (planning _ refl))
          λ current _.
            Safe-bind (λ v. Unit) _ _ (Safe-lift (ntp_already_matches repr current state))
              λ matched _.
                Safe-if matched _ _
                  (λ same.
                    Safe-pure _ (record { one_step = refl; answered = refl; planned = λ c. refl }))
                  (λ other.
                    Safe-bind (λ v. Unit) _ _
                      (invoke_mapping-Safe (ntp_request state flags.confirm)
                        (keeps _ (ground arith)))
                      λ result _. Safe-pure _ (record {
                        one_step = refl;
                        answered = ground arith;
                        planned = λ c. ground arith;
                      }))

    boot-Safe :
        Safe P (IsPart "boot" true flags.confirm) (reconcile_boot repr M state flags.confirm)
    unfolding reconcile_boot plans_only
    boot-Safe =
        Safe-bind (λ v. Unit) _ _ (invoke_mapping-Safe boot_query (planning _ refl))
          λ current _.
            Safe-if (flags.confirm && not (boot_already_matches current state)) _ _
              (λ go.
                Safe-bind (λ v. Unit) _ _
                  (invoke_mapping-Safe (boot_request state) (confirmed _ (ground arith)))
                  λ result _. Safe-pure _ (record {
                    one_step = refl;
                    answered = ground arith;
                    planned = λ c. ground arith;
                  }))
              (λ stop.
                Safe-pure _ (record { one_step = refl; answered = refl; planned = λ c. refl }))

    reboot-Safe : Safe P (IsPart "reboot" true flags.confirm) (reconcile_reboot repr M state flags)
    unfolding reconcile_reboot plans_only
    reboot-Safe =
        Safe-bind (λ v. Unit) _ _
          (invoke_mapping-Safe (reset_request state flags) (keeps _ (ground arith)))
          λ result _.
            Safe-pure _
              (record { one_step = refl; answered = ground arith; planned = λ c. ground arith })

    when-Safe :
        (kind : String) (wanted : Bool) (part : Exec M.State ReconcileError Entries)
        → Safe P (IsPart kind true flags.confirm) part
        → Safe P (IsPart kind wanted flags.confirm) (when repr M wanted part)
    unfolding when
    when-Safe kind true part h = h
    when-Safe kind false part h =
        Safe-pure _ (record { one_step = refl; answered = refl; planned = λ c. refl })

    parts_result :
        (bios ntp boot reboot : Entries)
        → IsPart "bios-profile" (is_set state.bios_profile) flags.confirm bios
        → IsPart "ntp" (is_nonempty state.ntp_servers) flags.confirm ntp
        → IsPart "boot" (is_set state.boot_device) flags.confirm boot
        → IsPart "reboot" (is_set state.reset_type) flags.confirm reboot
        → IsPlanOf state flags.confirm (record {
          dry_run = not flags.confirm;
          steps = bios.0 ++ (ntp.0 ++ (boot.0 ++ reboot.0));
          applied = bios.1 ++ (ntp.1 ++ (boot.1 ++ reboot.1));
        })
    parts_result bios ntp boot reboot b n o r = record {
      flagged = refl;
      in_order = simp (kinds-append, b.one_step, n.one_step, o.one_step, r.one_step);
      answered = justified-append bios.0 _ bios.1 _ b.answered (
          justified-append ntp.0 _ ntp.1 _ n.answered
            (justified-append boot.0 reboot.0 boot.1 reboot.1 o.answered r.answered));
      planned = λ c. simp (b.planned c, n.planned c, o.planned c, r.planned c);
    }

    pub reconcile-Safe : Safe P (IsPlanOf state flags.confirm) (reconcile repr M state flags)
    unfolding reconcile
    reconcile-Safe =
        Safe-bind _ _ _ (when-Safe "bios-profile" (is_set state.bios_profile) _ bios_profile-Safe)
          λ bios b.
            Safe-bind _ _ _ (when-Safe "ntp" (is_nonempty state.ntp_servers) _ ntp-Safe) λ ntp n.
              Safe-bind _ _ _ (when-Safe "boot" (is_set state.boot_device) _ boot-Safe) λ boot o.
                Safe-bind _ _ _ (when-Safe "reboot" (is_set state.reset_type) _ reboot-Safe)
                  λ reboot r. Safe-pure _ (parts_result bios ntp boot reboot b n o r)
