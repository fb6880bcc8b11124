-- ===== src/Action/Report.antt =====
-- redfish_ctl/redfish_manager.py: what invoke_action returns, on each of its paths.
use redfish_ctl.Common.{String, ◌<>◌, true, false, Option, none, some, List, [], ◌∷◌, ◌++◌}
use redfish_ctl.Common.Dict.{Dict, insert, set_default, keys}
use redfish_ctl.Common.Effect.{Result, ok, raised}
use redfish_ctl.Common.Text.{join, lstrip, sorted}
use redfish_ctl.Json.{Json, bool, str, dict, props, object, texts, optional, to_text}
use redfish_ctl.Policy.{Destructiveness, value as level_value}
use redfish_ctl.Http.{
  Exn, python_error, CommandError, message, CommandResult, RedfishApiRespond, error,
}
use redfish_ctl.Http.Error.{unique}
use redfish_ctl.Http.Status.{respond_name}
use redfish_ctl.Action.{RedfishAction}
use redfish_ctl.Action.Discover.{flatten_action_targets}
use redfish_ctl.Action.Validate.{ValidationError, error_json}

pub record ActionResult : Type 0 where
  pub result : CommandResult
  pub discovered : Option (Dict RedfishAction)

abbrev pub failed : Json → Dict RedfishAction → String → ActionResult
failed v actions text = record {
  result = record { data_of = v; error = some (message text) };
  discovered = some actions;
}

-- `action '…' not found on …`
unfoldable pub not_found_result : String → String → Dict Json → Dict RedfishAction → ActionResult
unfolding sorted unique flatten_action_targets
not_found_result resource_uri wanted resource actions =
    failed
      (object (
        ("action", str wanted)
        ∷ (
          "available",
          texts (sorted (unique [] (keys actions ++ keys (flatten_action_targets resource)))),
        )
        ∷ []))
      actions ("action '" <> (wanted <> ("' not found on " <> resource_uri)))

-- The texts of a list; joining anything else raises.
abbrev joinable : List Json → Option (List String)
joinable [] = some []
joinable (str s ∷ vs) = elim (joinable vs) [ none ↦ none | some ts ↦ some (s ∷ ts) ]
joinable (v ∷ vs) = none

module _ (repr : String → String) where
  -- The error text of the first validation error.
  unfoldable pub first_error : String → ValidationError → Result Exn String
  unfolding lstrip join to_text
  first_error full e = choose (joinable e.allowed)
    where
      choose : Option (List String) → Result Exn String
      choose none = raised (python_error "join")
      choose (some []) =
          ok ("unknown parameter for " <> (lstrip b'#' full <> (": " <> e.parameter)))
      choose (some allowed) = ok (
          "invalid value for "
          <> (lstrip b'#' full
              <> (" "
                  <> (e.parameter
                      <> (": "
                          <> (to_text repr e.value <> ("; allowed: " <> join ", " allowed)))))))

abbrev pub errors_json : List ValidationError → List Json
errors_json [] = []
errors_json (e ∷ es) = error_json e ∷ errors_json es

-- The rows that every answer about a resolved action begins with.
abbrev pub described : String → Json → Dict Json → Destructiveness → Dict Json
described full target body level =
    ("action", str full)
    ∷ ("target", target)
    ∷ ("payload", object body)
    ∷ ("level", str (level_value level))
    ∷ []

unfoldable pub dry_result :
    String → Json → Dict Json → Destructiveness → Option String → Dict RedfishAction → ActionResult
unfolding level_value
dry_result full target body level blocked actions = record {
  result = record {
    data_of = object (
        (("dry_run", bool true) ∷ described full target body level)
        ++ (("blocked", optional blocked) ∷ []));
    error = none;
  };
  discovered = some actions;
}

-- `result.data`, or a dict around what is no dict.
abbrev posted_data : Json → Dict Json
posted_data (dict fs) = props fs
posted_data v = ("result", v) ∷ []

-- What is returned after the POST: `api_resp` or `result.error` makes it a failure.
abbrev concluded :
    String → Dict Json → Option CommandError → RedfishApiRespond → Dict RedfishAction → ActionResult
concluded full d (some e) resp actions = record {
  result = record { data_of = object (insert "executed" (bool false) d); error = some e };
  discovered = some actions;
}
concluded full d none error actions = record {
  result = record {
    data_of = object (insert "executed" (bool false) d);
    error = some (message ("action " <> (full <> (" failed with " <> respond_name error))));
  };
  discovered = some actions;
}
concluded full d none resp actions = record {
  result = record { data_of = object (set_default "executed" (bool true) d); error = none };
  discovered = some actions;
}

unfoldable pub after_post :
    String
    → Json
    → Destructiveness
    → Dict RedfishAction
    → CommandResult × RedfishApiRespond
    → ActionResult
unfolding insert set_default level_value respond_name
after_post full target level actions (result, resp) =
    let d = posted_data result.data_of in
    let d = set_default "action" (str full) d in
    let d = set_default "target" target d in
    let d = set_default "level" (str (level_value level)) d in
    concluded full d result.error resp actions
