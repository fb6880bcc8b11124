-- ===== src/Action/Invoke.antt =====
-- redfish_ctl/redfish_manager.py: RedfishManager.invoke_action.
pub mod Guard
pub mod Target
pub mod Done
mod Tests
use redfish_ctl.Common.{
  String, ◌<>◌, Bool, true, false, not, ◌&&◌, ◌||◌, Option, none, some, List, [], ◌∷◌, ◌++◌,
  is_some, if◌then◌else◌,
}
use redfish_ctl.Common.Dict.{Dict, lookup, insert, set_default, keys}
use redfish_ctl.Common.Effect.{Result, ok, raised, Exec, pure, raise, lift, ◌>>=◌}
use redfish_ctl.Common.Text.{is_empty, join, lstrip, sorted}
use redfish_ctl.Json.{
  Json, null, bool, str, list, dict, items, props, truthy, object, texts, optional, to_text,
}
use redfish_ctl.Policy.{
  Destructiveness, read_only, reversible, destructive, irreversible, classify, value as level_value,
}
use redfish_ctl.Http.{
  Exn, python_error, CommandError, message, redfish, CommandResult, RedfishApiRespond, error,
  Transport,
}
use redfish_ctl.Http.Error.{exn_text, unique}
use redfish_ctl.Http.Status.{base_post, respond_name}
use redfish_ctl.Action.{RedfishAction}
use redfish_ctl.Action.Discover.{flatten_action_targets, discover_redfish_actions}
use redfish_ctl.Action.Validate.{ValidationError, error_json, validate_action_payload}
use redfish_ctl.Action.Gate.{Options, gate}
use redfish_ctl.Action.Report.{
  ActionResult, failed, not_found_result, first_error, errors_json, described, dry_result,
  after_post,
}

-- `self.base_query(uri).data or {}`: what is no dict fails where the source looks a key up in it.
unfoldable pub document : Json → Result Exn (Dict Json)
document (dict fs) = ok (props fs)
document v = if truthy v then raised (python_error "resource") else ok []

abbrev named : String → String → String
named action_name full = if is_empty full then "#" <> action_name else full

-- `action is not None and action.target`
abbrev by_short_name : String → Option RedfishAction → Option (String × Json)
by_short_name action_name none = none
by_short_name action_name (some action) =
    if truthy action.target
    then some (named action_name action.full_redfish_name, action.target)
    else none

abbrev by_full_name : String → Option Json → Option (String × Json)
by_full_name full_action_type none = none
by_full_name full_action_type (some target) = some (full_action_type, target)

abbrev first_some : Option (String × Json) → Option (String × Json) → Option (String × Json)
first_some (some found) other = some found
first_some none other = other

-- The full name and the target: by the exact type first, then by the short name. A missing type is "".
unfoldable pub resolve : Dict Json → Dict RedfishAction → String → String → Option (String × Json)
resolve resource actions action_name full_action_type =
    first_some
      (if is_empty full_action_type
        then none
        else by_full_name full_action_type
            (lookup full_action_type (flatten_action_targets resource)))
      (by_short_name action_name (lookup action_name actions))

module _ (repr : String → String) where
  module _ (schema : String → Dict (List String)) (T : Transport) (origin : String)
      (query : String → Exec T.State Exn Json) where
    -- The POST, where the gate lets it through.
    pub perform :
        String → Json → Dict Json → Options → Dict RedfishAction → Exec T.State Exn ActionResult
    perform full target body o actions =
        let level = classify full in
        let (dry, blocked) = gate level o in
        if dry then pure (dry_result full target body level blocked actions) else (do
          posted ← base_post repr T origin (to_text repr target) (object body)
          pure (after_post full target level actions posted))

    -- A payload that does not fit stops the call.
    checked :
        String
        → Json
        → Dict Json
        → Options
        → Dict RedfishAction
        → List ValidationError
        → Exec T.State Exn ActionResult
    checked full target body o actions [] = perform full target body o actions
    checked full target body o actions (e ∷ es) = do
      text ← lift (first_error repr full e)
      pure (
          failed
            (object (
              described full target body (classify full)
              ++ (("validation_errors", list (items (errors_json (e ∷ es)))) ∷ [])))
            actions text)

    resolved :
        String
        → String
        → Dict Json
        → Options
        → Dict Json
        → Dict RedfishAction
        → String
        → Option (String × Json)
        → Exec T.State Exn ActionResult
    resolved uri action_name body o resource actions wanted none =
        pure (not_found_result uri wanted resource actions)
    resolved uri action_name body o resource actions wanted (some (full, target)) = do
      errors ← lift (validate_action_payload schema full (lookup action_name actions) body)
      checked full target body o actions errors

    -- What follows the read of the resource.
    on_resource :
        String → String → Dict Json → String → Options → Dict Json → Exec T.State Exn ActionResult
    on_resource uri action_name body full_action_type o resource = do
      actions ← lift (discover_redfish_actions resource)
      resolved uri action_name body o resource actions
          (if is_empty full_action_type then action_name else full_action_type)
          (resolve resource actions action_name full_action_type)

    abbrev read_failed : String → String → ActionResult
    read_failed uri text = record {
      result = record {
        data_of = null;
        error = some (message ("failed to read " <> (uri <> (": " <> text))));
      };
      discovered = none;
    }

    after_read :
        String
        → String
        → Dict Json
        → String
        → Options
        → Result Exn Json
        → Exec T.State Exn ActionResult
    after_read uri action_name body full o (raised e) = pure (read_failed uri (exn_text repr e))
    after_read uri action_name body full o (ok v) = do
      resource ← lift (document v)
      on_resource uri action_name body full o resource

    -- `payload or {}` is the payload, and a missing `full_action_type` is "".
    pub invoke_action :
        String → String → Dict Json → String → Options → Exec T.State Exn ActionResult
    invoke_action uri action_name payload full_action_type o s =
        let (read, t) = query uri s in after_read uri action_name payload full_action_type o read t
