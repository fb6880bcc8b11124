-- ===== src/Http/Status/Tests.antt =====
-- Runs of the classification of an answer, and of a write against a BMC that records its calls.
use redfish_ctl.Common.{
  ◌≡◌, ◌⊎◌, ℕ, ◌<>◌, refl, String, true, ◌&&◌, Option, none, some, List, [], ◌∷◌, leb, ltb,
}
use redfish_ctl.Common.Effect
use redfish_ctl.Json.{null, str, object}
use redfish_ctl.Http.{Response, delete, Transport, decoded, redfish, error, CommandResult}
use redfish_ctl.Http.Error.{parse_error}
use redfish_ctl.Http.Status.{default_error_handler, base_request_respond, task_id_from_header}
use redfish_ctl.Http.Status.Laws.{
  returns, Accepts, Rejects, returns-default_error_handler, base_request_respond_outcome,
}
use redfish_ctl.Http.Status.TaskId.{task_id_from_header-location}

abbrev plain : String → String
plain t = t

abbrev answer_of : ℕ → Option String → Response
answer_of code location = record {
  status_code = code;
  location = location;
  retry_after = none;
  body = decoded (object (("error", object (("message", str "busy") ∷ [])) ∷ []));
}

abbrev conflict : Response
conflict = answer_of 409 none

abbrev started : Response
started = answer_of 202 (some ("/redfish/v1/TaskService/Tasks" <> ("/" <> "JID_7")))

-- A BMC that answers every call with a conflict, and records the URLs.
abbrev recorder : Transport
recorder = record {
  State = List String;
  send = λ method url payload log. (Effect.ok conflict, url ∷ log);
}

returns-default_error_handler_example :
    returns (default_error_handler plain conflict) ≡ (leb 200 409 && ltb 409 300)
returns-default_error_handler_example = returns-default_error_handler plain conflict

task_id_from_header-location_example : task_id_from_header started true ≡ Effect.ok "JID_7"
task_id_from_header-location_example =
    task_id_from_header-location started "/redfish/v1/TaskService/Tasks" "JID_7" true refl refl

-- The answer 409 is returned as an error.
conflict_result : CommandResult
conflict_result = record {
  data_of = object [];
  error = some (redfish (parse_error plain conflict));
}

conflict_returned :
    base_request_respond plain recorder "https://bmc" "/x" delete null 0 []
    ≡ (Effect.ok (conflict_result, error), "https://bmc/x" ∷ [])
unfolding base_request_respond conflict_result
conflict_returned = refl

base_request_respond_outcome_example :
    (r : Response) × (recorder.send delete ("https://bmc" <> "/x") none []
      ≡ (Effect.ok r, "https://bmc/x" ∷ []))
    × ((conflict_result.error ≡ none) × Accepts r 0
        ⊎ (conflict_result.error ≡ some (redfish (parse_error plain r))) × Rejects r)
base_request_respond_outcome_example =
    base_request_respond_outcome plain recorder "https://bmc" "/x" delete null 0 []
      conflict_returned
