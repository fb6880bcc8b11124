-- ===== src/Controller/Profile.antt =====
-- k8s/controller/redfish_node_profile_controller.py: reconcile_profile and the handler around it.
pub mod Laws
mod Tests
use redfish_ctl.Common.{
  String, Bool, true, false, not, ◌&&◌, Option, none, some, List, [], ◌∷◌, if◌then◌else◌,
}
use redfish_ctl.Common.Dict.{Dict}
use redfish_ctl.Common.Effect.{Result, ok, raised, Exec, pure, raise, lift, ◌>>=◌}
use redfish_ctl.Common.Text.{is_empty}
use redfish_ctl.Json.{Json, truthy, mapping, get, to_text}
use redfish_ctl.Reconcile.Desired.{ReconcileError, value_error, type_error, api_error, invoke_error}
use redfish_ctl.Reconcile.Request.{SyncInvoker, Flags}
use redfish_ctl.Reconcile.Plan.{ReconcileStep, ReconcileResult, reconcile_mapping}
use redfish_ctl.Controller.Status.{
  Status, Hashes, truthy_text, same_hash, build_status, build_error_status,
}

-- _endpoint_spec
unfoldable pub endpoint_spec : Dict Json → Result ReconcileError (Dict Json)
unfolding get
endpoint_spec spec = required (mapping (get spec "endpoint"))
  where
    required : Dict Json → Result ReconcileError (Dict Json)
    required [] = raised (value_error "RedfishNodeProfile spec.endpoint is required")
    required (row ∷ rows) = ok (row ∷ rows)

-- Whether the plan may be applied.
unfoldable pub is_approved : Option String → Option String → Option String → Bool
is_approved current approved consumed =
    truthy_text current && (same_hash approved current && not (same_hash consumed current))

-- `str(e)`
abbrev error_message : ReconcileError → String
error_message (value_error t) = t
error_message (type_error t) = t
error_message (api_error t) = t
error_message (invoke_error t) = t

abbrev plan_flags : Flags
plan_flags = record { confirm = false; wait_for_reboot = false; async_call = false }

abbrev apply_flags : Bool → Flags
apply_flags wait = record { confirm = true; wait_for_reboot = wait; async_call = false }

-- str(v or "") or None
abbrev pub hash_text : (String → String) → Json → Option String
hash_text repr v =
    let text = if truthy v then to_text repr v else "" in if is_empty text then none else some text

-- `make_manager` is what building the manager may raise, for the endpoint.
module _ (repr : String → String) (digest : List ReconcileStep → String) (M : SyncInvoker)
    (make_manager : Dict Json → Result ReconcileError (Unit {0})) where
  -- The rest, once the plan is known.
  pub decide :
      Dict Json
      → Option String
      → Option String
      → String
      → ReconcileResult
      → Exec M.State ReconcileError Status
  decide spec approved_hash consumed at plan =
      let hashes : Hashes = record {
        approved_plan = approved_hash;
        plan_value = none;
        consumed_plan = consumed;
      } in
      let dry_status = build_status digest plan false hashes at in
      let current = dry_status.plan_hash in
      if is_approved current approved_hash consumed
      then (do
        result ←
            reconcile_mapping repr M (mapping (get spec "desiredState"))
              (apply_flags (truthy (get spec "waitForReboot")))
        pure (
            build_status digest result true
              (record {
                approved_plan = approved_hash;
                plan_value = current;
                consumed_plan = current;
              })
              at))
      else pure dry_status

  -- The dry run, and what its plan decides.
  plan_and_decide : Dict Json → Dict Json → String → Exec M.State ReconcileError Status
  unfolding get
  plan_and_decide spec status at = do
    plan ← reconcile_mapping repr M (mapping (get spec "desiredState")) plan_flags
    decide spec (hash_text repr (get spec "approvedPlanHash"))
        (hash_text repr (get status "consumedPlanHash")) at plan

  for_endpoint : Dict Json → Dict Json → String → Dict Json → Exec M.State ReconcileError Status
  for_endpoint spec status at endpoint =
      lift (make_manager endpoint) >>= λ _. plan_and_decide spec status at

  -- reconcile_profile; `status` is the resource's present status.
  pub reconcile_profile : Dict Json → Dict Json → String → Exec M.State ReconcileError Status
  reconcile_profile spec status at = lift (endpoint_spec spec) >>= for_endpoint spec status at

  abbrev settle : String → Result ReconcileError Status × M.State → Status × M.State
  settle at (ok status, s) = (status, s)
  settle at (raised e, s) = (build_error_status (error_message e) at, s)

  -- reconcile_redfish_node_profile: every error becomes a status. `credentials` is what reading the
  -- Secret may raise.
  pub handle_profile :
      Result ReconcileError (Unit {0}) → Dict Json → Dict Json → String → M.State → Status × M.State
  handle_profile credentials spec status at s =
      settle at ((lift credentials >>= λ _. reconcile_profile spec status at) s)
