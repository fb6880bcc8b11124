-- ===== src/Http/Status.antt =====
-- How `RedfishManager` classifies the answer to a write, and the write itself
-- (redfish_ctl/redfish_manager.py: default_error_handler, default_post_success, base_request_respond,
-- task_id_from_header, api_success_msg, base_post).
pub mod Laws
mod Tests
pub mod TaskId
use redfish_ctl.Common.{
  ℕ, String, ◌<>◌, Bool, true, false, not, ◌&&◌, ◌||◌, Option, none, some, List, [], ◌∷◌, ◌=?◌, leb,
  ltb, if◌then◌else◌,
}
use redfish_ctl.Common.Effect.{Result, raised, Exec, pure, raise, ◌>>=◌}
use redfish_ctl.Common.Effect
use redfish_ctl.Common.Text.{split, last_of}
use redfish_ctl.Json.{Json, str, object}
use redfish_ctl.Http.{
  Response, RedfishError, Exn, unauthorized, forbidden, not_found, task_id_unavailable,
  unsupported_action, RedfishApiRespond, error, created, success, accepted_task_generated,
  HttpMethod, get, post, push, patch, delete, CommandError, redfish, CommandResult, Transport,
}
use redfish_ctl.Http.Error.{parse_error}

-- ApiRespondString
unfoldable pub status_name : RedfishApiRespond → String
status_name RedfishApiRespond.ok = "ok"
status_name error = "error"
status_name created = "created"
status_name success = "success"
status_name accepted_task_generated = "accepted"

-- `RedfishManager.api_success_msg` with no message.
unfoldable pub api_success_msg : RedfishApiRespond → Json
unfolding status_name
api_success_msg r = object (("Status", str (status_name r)) ∷ [])

-- The name of the member, `api_resp.name`.
unfoldable pub respond_name : RedfishApiRespond → String
respond_name RedfishApiRespond.ok = "Ok"
respond_name error = "Error"
respond_name created = "Created"
respond_name success = "Success"
respond_name accepted_task_generated = "AcceptedTaskGenerated"

-- The last segment of the Location header.
unfoldable pub task_id_from_header : Response → Bool → Result Exn String
unfolding split last_of
task_id_from_header response strict = elim response.location [
  | none ↦
      if strict
      then raised (
          task_id_unavailable
            "There is no location in the response header. (not all api create job id)")
      else Effect.ok ""
  | some location ↦ Effect.ok (last_of "" (split b'/' location))
]

module _ (repr : String → String) where
  unfoldable pub default_error_handler : Response → Result Exn RedfishApiRespond
  default_error_handler response =
      let code = response.status_code in
      let parsed = parse_error repr response in
      if code =? 200
      then Effect.ok RedfishApiRespond.ok
      else if code =? 202
      then Effect.ok accepted_task_generated
      else if code =? 204
      then Effect.ok success
      else if leb 200 code && ltb code 300
      then Effect.ok success
      else if code =? 401
      then raised (unauthorized parsed)
      else if code =? 403
      then raised (forbidden parsed)
      else if code =? 404
      then raised (not_found parsed)
      else raised (not_found parsed)

  -- `ignore_error_code` 0 ignores nothing.
  unfoldable pub default_post_success : Response → ℕ → Result Exn RedfishApiRespond
  default_post_success response ignore_error_code =
      let code = response.status_code in
      if not (ignore_error_code =? 0) && (code =? ignore_error_code)
      then Effect.ok success
      else if (code =? 405) || (code =? 409)
      then Effect.ok error
      else default_error_handler response

  abbrev blank_result : Json → CommandResult
  blank_result v = record { data_of = v; error = none }

  -- What the write returns, once the answer is classified.
  conclude : Response → RedfishApiRespond → Result Exn (CommandResult × RedfishApiRespond)
  unfolding task_id_from_header api_success_msg
  conclude response error =
      Effect.ok
        (record { data_of = object []; error = some (redfish (parse_error repr response)) }, error)
  conclude response accepted_task_generated = elim (task_id_from_header response false) [
    | Effect.ok task_id ↦
        Effect.ok (blank_result (object (("task_id", str task_id) ∷ [])), accepted_task_generated)
    | raised e ↦ raised e
  ]
  conclude response r = Effect.ok (blank_result (api_success_msg r), r)

  answer : Response → ℕ → Result Exn (CommandResult × RedfishApiRespond)
  unfolding default_post_success conclude
  answer response ignore_error_code = elim (default_post_success response ignore_error_code) [
    | Effect.ok r ↦ conclude response r
    | raised e ↦ raised e
  ]

  module _ (T : Transport) (origin : String) where
    unfoldable pub issue :
        HttpMethod → String → Option Json → ℕ → Exec T.State Exn (CommandResult × RedfishApiRespond)
    unfolding answer
    issue method resource payload ignore_error_code = do
      response ← T.send method (origin <> resource) payload
      Effect.lift (answer response ignore_error_code)

    -- The payload of a DELETE is not sent.
    unfoldable pub base_request_respond :
        String → HttpMethod → Json → ℕ → Exec T.State Exn (CommandResult × RedfishApiRespond)
    unfolding issue
    base_request_respond resource post payload ignore = issue post resource (some payload) ignore
    base_request_respond resource patch payload ignore = issue patch resource (some payload) ignore
    base_request_respond resource delete payload ignore = issue delete resource none ignore
    base_request_respond resource method payload ignore =
        raise (unsupported_action "unsupported write method")

    unfoldable pub base_post : String → Json → Exec T.State Exn (CommandResult × RedfishApiRespond)
    unfolding base_request_respond
    base_post resource payload = base_request_respond resource post payload 0

    unfoldable pub base_patch : String → Json → Exec T.State Exn (CommandResult × RedfishApiRespond)
    unfolding base_request_respond
    base_patch resource payload = base_request_respond resource patch payload 0
