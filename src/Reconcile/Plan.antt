-- ===== src/Reconcile/Plan.antt =====
-- redfish_ctl/reconcile.py: the steps of a plan, the commands that they issue, and `reconcile` itself.
pub mod Contract
pub mod Parts
pub mod Laws
mod Tests
use redfish_ctl.Common.{
  String, ◌<>◌, Bool, true, false, not, ◌&&◌, ◌||◌, Option, none, some, List, [], ◌∷◌, ◌++◌,
  if◌then◌else◌,
}
use redfish_ctl.Common.Dict.{Dict}
use redfish_ctl.Common.Effect.{Result, ok, raised, Exec, pure, raise, lift, ◌>>=◌}
use redfish_ctl.Json.{
  Json, null, bool, str, list, dict, elems, items, truthy, mapping, get, object, texts, optional,
}
use redfish_ctl.Http.Error.{dicts}
use redfish_ctl.Reconcile.Desired.{DesiredState, ReconcileError, api_error, from_mapping}
use redfish_ctl.Reconcile.Request.{
  Request, Reply, SyncInvoker, Flags, diff_request, apply_request, network_request, ntp_request,
  boot_query, boot_request, reset_request,
}
use redfish_ctl.Reconcile.Match.{ntp_already_matches, boot_already_matches, is_set}

pub record ReconcileStep : Type 0 where
  pub kind : String
  pub required : Bool
  pub description : String
  pub preview : Dict Json

pub record AppliedChange : Type 0 where
  pub kind : String
  pub changed : Bool
  pub result : Dict Json

pub record ReconcileResult : Type 0 where
  pub dry_run : Bool
  pub steps : List ReconcileStep
  pub applied : List AppliedChange

-- What a part of the reconciliation appends to `steps` and to `applied`.
abbrev pub Entries : Type 0
Entries = List ReconcileStep × List AppliedChange

-- _mapping_rows
unfoldable pub mapping_rows : Json → List (Dict Json)
mapping_rows (list vs) = dicts (elems vs)
mapping_rows v = []

abbrev reply_data : Reply → Result ReconcileError Json
reply_data r = elim r.error [ none ↦ ok r.data_of | some text ↦ raised (api_error text) ]

abbrev text_of : Option String → String
text_of none = "None"
text_of (some t) = t

abbrev pub is_nonempty : List String → Bool
is_nonempty [] = false
is_nonempty (t ∷ ts) = true

module _ (repr : String → String) (M : SyncInvoker) where
  -- _invoke_data
  unfoldable pub invoke_data : Request → Exec M.State ReconcileError Json
  invoke_data request = do reply ← M.sync_invoke request; lift (reply_data reply)

  -- _invoke_mapping
  unfoldable pub invoke_mapping : Request → Exec M.State ReconcileError (Dict Json)
  invoke_mapping request = do v ← invoke_data request; pure (mapping v)

  -- _invoke_rows
  pub invoke_rows : Request → Exec M.State ReconcileError (List (Dict Json))
  unfolding mapping_rows
  invoke_rows request = do v ← invoke_data request; pure (mapping_rows v)

  -- _reconcile_bios_profile
  pub reconcile_bios_profile : DesiredState → Bool → Exec M.State ReconcileError Entries
  reconcile_bios_profile state confirm = do
    diff ← invoke_mapping (diff_request state.bios_profile)
    let required = not (truthy (get diff "matches"))
    let steps : List ReconcileStep =
        record {
          kind = "bios-profile";
          required = required;
          description = "BIOS profile " <> text_of state.bios_profile;
          preview = diff;
        }
        ∷ []
    if confirm && required
        then (do
          result ← invoke_mapping (apply_request state.bios_profile)
          pure (steps, record { kind = "bios-profile"; changed = true; result = result } ∷ []))
        else pure (steps, [])

  abbrev ntp_step : Bool → Dict Json → ReconcileStep
  ntp_step required preview = record {
    kind = "ntp";
    required = required;
    description = "Manager NTP servers";
    preview = preview;
  }

  abbrev rows_json : List (Dict Json) → List Json
  rows_json [] = []
  rows_json (row ∷ rows) = object row ∷ rows_json rows

  -- _reconcile_ntp
  pub reconcile_ntp : DesiredState → Bool → Exec M.State ReconcileError Entries
  reconcile_ntp state confirm = do
    current ← invoke_rows network_request
    matched ← lift (ntp_already_matches repr current state)
    if matched
        then pure (
          ntp_step false (
                ("servers", texts state.ntp_servers)
                ∷ ("manager", optional state.ntp_manager_id)
                ∷ ("current", list (items (rows_json current)))
                ∷ [])
              ∷ [],
          [],
        )
        else (do
          result ← invoke_mapping (ntp_request state confirm)
          pure (
            ntp_step (truthy (get result "plan") || truthy (get result "applied")) result ∷ [],
            (if confirm
                then record {
                  kind = "ntp";
                  changed = truthy (get result "applied");
                  result = result;
                }
                  ∷ []
                else []),
          ))

  -- _reconcile_boot
  pub reconcile_boot : DesiredState → Bool → Exec M.State ReconcileError Entries
  reconcile_boot state confirm = do
    current ← invoke_mapping boot_query
    let required = not (boot_already_matches current state)
    let steps : List ReconcileStep =
        record {
          kind = "boot";
          required = required;
          description = "One-time boot override";
          preview =
              ("device", optional state.boot_device)
              ∷ ("mode", optional state.boot_mode)
              ∷ ("uefiTarget", optional state.uefi_target)
              ∷ ("current", object current)
              ∷ [];
        }
        ∷ []
    if confirm && required
        then (do
          result ← invoke_mapping (boot_request state)
          pure (steps, record { kind = "boot"; changed = true; result = result } ∷ []))
        else pure (steps, [])

  -- _reconcile_reboot
  unfoldable pub reconcile_reboot : DesiredState → Flags → Exec M.State ReconcileError Entries
  reconcile_reboot state flags = do
    result ← invoke_mapping (reset_request state flags)
    pure (
      record {
        kind = "reboot";
        required = true;
        description = "Host reset " <> text_of state.reset_type;
        preview = result;
      }
          ∷ [],
      (if flags.confirm
          then record { kind = "reboot"; changed = true; result = result } ∷ []
          else []),
    )

  -- A part that the desired state names, and nothing for one that it leaves out.
  unfoldable pub when :
      Bool → Exec M.State ReconcileError Entries → Exec M.State ReconcileError Entries
  when wanted part = if wanted then part else pure ([], [])

  -- reconcile, for a `DesiredState`
  unfoldable pub reconcile : DesiredState → Flags → Exec M.State ReconcileError ReconcileResult
  reconcile state flags = do
    bios ← when (is_set state.bios_profile) (reconcile_bios_profile state flags.confirm)
    ntp ← when (is_nonempty state.ntp_servers) (reconcile_ntp state flags.confirm)
    boot ← when (is_set state.boot_device) (reconcile_boot state flags.confirm)
    reboot ← when (is_set state.reset_type) (reconcile_reboot state flags)
    pure (record {
      dry_run = not flags.confirm;
      steps = bios.0 ++ (ntp.0 ++ (boot.0 ++ reboot.0));
      applied = bios.1 ++ (ntp.1 ++ (boot.1 ++ reboot.1));
    })

  -- reconcile, for a mapping
  unfoldable pub reconcile_mapping : Dict Json → Flags → Exec M.State ReconcileError ReconcileResult
  reconcile_mapping spec flags = do state ← lift (from_mapping repr spec); reconcile state flags
