-- ===== src/Http.antt =====
-- What a manager exchanges with a BMC: the response of an HTTP call, the parsed Redfish error
-- (redfish_ctl/redfish_respond_error.py), what the manager raises and what a command returns
-- (redfish_ctl/redfish_manager.py, redfish_ctl/redfish_shared.py, redfish_ctl/redfish_api_common.py).
pub mod Error
pub mod Status
use redfish_ctl.Common.{ℕ, String, Option, List}
use redfish_ctl.Common.Dict.{Dict}
use redfish_ctl.Common.Effect.{Result}
use redfish_ctl.Json.{Json}

-- `response.json()`: the value, or the text of the `JSONDecodeError`.
pub data Body : Type 0 where
  decoded : Json → Body
  undecodable : String → Body

-- The headers are those that the program reads.
pub record Response : Type 0 where
  pub status_code : ℕ
  pub location : Option String
  pub retry_after : Option String
  pub body : Body

pub record RedfishError : Type 0 where
  pub status_code : ℕ
  pub code : String
  pub message : String
  pub message_extended : List (Dict Json)
  pub exception_msg : String

-- `invalid_argument` is InvalidArgument; `python_error` stands for a `TypeError` or another error of a malformed document, `transport` for
-- what the HTTP library raises.
pub data Exn : Type 0 where
  unauthorized forbidden not_found : RedfishError → Exn
  authentication_failed unsupported_action task_id_unavailable python_error invalid_argument :
      String → Exn
  transport : String → Exn

pub data RedfishApiRespond : Type 0 where
  ok error created success accepted_task_generated : RedfishApiRespond

pub data HttpMethod : Type 0 where
  get post push patch delete : HttpMethod

-- `error` is an error text or a parsed Redfish error.
pub data CommandError : Type 0 where
  message : String → CommandError
  redfish : RedfishError → CommandError

pub record CommandResult : Type 0 where
  pub data_of : Json
  pub error : Option CommandError

-- The HTTP library: one call with the method, the URL and the JSON payload, if it sends one.
pub record Transport : Type 1 where
  pub State : Type 0
  pub send : HttpMethod → String → Option Json → State → Result Exn Response × State
