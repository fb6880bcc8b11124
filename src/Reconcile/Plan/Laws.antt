-- ===== src/Reconcile/Plan/Laws.antt =====
-- Laws of `reconcile`.
use redfish_ctl.Common.{String, ◌≡◌, true, false, not, [], arith, inl, inr, all}
use redfish_ctl.Common.Dict.{Dict}
use redfish_ctl.Common.Effect.{Result, ok, raised, bind-lift_cases}
use redfish_ctl.Json.{Json}
use redfish_ctl.Common.Effect.Safe.{Safe, Holds, Holds-any}
use redfish_ctl.Reconcile.Desired.{DesiredState, ReconcileError, from_mapping}
use redfish_ctl.Reconcile.Request.{Request, SyncInvoker, Flags}
use redfish_ctl.Reconcile.Plan.{ReconcileResult, reconcile, reconcile_mapping}
use redfish_ctl.Reconcile.Plan.Contract.{plans_only, kinds, wanted_kinds, justified}
use redfish_ctl.Reconcile.Plan.Parts.{reconcile-Safe}

module _ (repr : String → String) (M : SyncInvoker) (state : DesiredState) (flags : Flags) where
  holds_map :
      {P Q : ReconcileResult → Type 0}
      → ((r : ReconcileResult) → P r → Q r)
      → (m : Result ReconcileError ReconcileResult) → Holds P m
      → Holds Q m
  holds_map f (ok r) h = f r h
  holds_map f (raised e) h = tt

  -- Without `confirm`, whatever property of the node the planning commands keep is kept by the whole
  -- reconciliation, also by one that raises. What it returns is marked as a dry run, has applied
  -- nothing, and has one step for each area that the desired state names, in the order BIOS profile,
  -- NTP, boot, reboot.
  pub reconcile_dry_run :
      (P : M.State → Type 0) (s : M.State)
      → flags.confirm ≡ false
      → ((r : Request) → plans_only r ≡ true → Safe P (λ reply. Unit) (M.sync_invoke r))
      → P s
      → P (reconcile repr M state flags s).1
        × Holds
            (λ r. (r.dry_run ≡ true) × (r.applied ≡ []) × (kinds r.steps ≡ wanted_kinds state))
            (reconcile repr M state flags s).0
  reconcile_dry_run P s unconfirmed keeps p =
      let (kept, plan) =
        (reconcile-Safe repr M P state flags (λ r h. keeps r (ground arith))).run s p in
      (
        kept,
        holds_map (λ r h. (rw unconfirmed at h.flagged, h.planned unconfirmed, h.in_order))
            (reconcile repr M state flags s).0 plan,
      )

  -- What `reconcile` returns has one step for each area named, in order, is marked as a dry run exactly
  -- if it was not confirmed, and every change that took effect answers a required step of its kind.
  pub reconcile-justified :
      (s : M.State)
      → Holds
          (λ r.
            (r.dry_run ≡ not flags.confirm)
            × (kinds r.steps ≡ wanted_kinds state)
            × (all (justified r.steps) r.applied ≡ true))
          (reconcile repr M state flags s).0
  reconcile-justified s =
      holds_map (λ r h. (h.flagged, h.in_order, h.answered)) (reconcile repr M state flags s).0
        ((reconcile-Safe repr M (λ t. Unit) state flags
            (λ r h. record { run = λ t p. (tt, Holds-any _) })).run
          s tt).1

module _ (repr : String → String) (M : SyncInvoker) (spec : Dict Json) (flags : Flags) where
  -- A reconciliation of a mapping that is not confirmed keeps what the planning commands keep.
  pub reconcile_mapping_dry_run :
      (P : M.State → Type 0) (s : M.State)
      → flags.confirm ≡ false
      → ((r : Request) → plans_only r ≡ true → Safe P (λ reply. Unit) (M.sync_invoke r))
      → P s
      → P (reconcile_mapping repr M spec flags s).1
  unfolding reconcile_mapping
  reconcile_mapping_dry_run P s unconfirmed keeps p =
      elim (bind-lift_cases (from_mapping repr spec) (λ state. reconcile repr M state flags) s) [
        | inl (state, _, e) ↦ rw e (reconcile_dry_run repr M state flags P s unconfirmed keeps p).0
        | inr same ↦ rw same p
      ]
