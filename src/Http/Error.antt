-- ===== src/Http/Error.antt =====
-- `RedfishManager.parse_error` and the rendering of a `RedfishError`.
pub mod Laws
use redfish_ctl.Common.{
  ℕ, String, ◌<>◌, Bool, true, false, not, ◌&&◌, Option, none, some, List, [], ◌∷◌, ◌++◌, ◌==◌,
  ◌=?◌, map, contains, if◌then◌else◌,
}
use redfish_ctl.Common.Dict.{Dict, lookup}
use redfish_ctl.Common.Text.{is_empty, join, show}
use redfish_ctl.Json.{
  Json, Items, null, bool, int, neg, str, list, dict, nil, cons, elems, items, props, truthy,
  to_text, get, object, or_null,
}
use redfish_ctl.Http.{
  Body, decoded, undecodable, Response, RedfishError, Exn, unauthorized, forbidden, not_found,
  authentication_failed, unsupported_action, task_id_unavailable, python_error, invalid_argument,
  transport,
}

-- `RedfishError(status_code)` with its default message.
abbrev blank_error : ℕ → RedfishError
blank_error status = record {
  status_code = status;
  code = "";
  message = "root";
  message_extended = [];
  exception_msg = "";
}

-- The dicts of a list, in order.
abbrev pub dicts : List Json → List (Dict Json)
dicts [] = []
dicts (dict fs ∷ vs) = props fs ∷ dicts vs
dicts (v ∷ vs) = dicts vs

abbrev extended_info : Json → List (Dict Json)
extended_info (list vs) = dicts (elems vs)
extended_info v = []

-- `d.get(k, default)`
abbrev get_or : Json → Option Json → Json
get_or d none = d
get_or d (some v) = v

-- The characters of a text, each a text.
abbrev pub chars : String → List Json
chars String.[] = []
chars (String.◌∷◌ c s) = str (String.◌∷◌ c String.[]) ∷ chars s

-- list(v), where that does not raise
abbrev pub list_of : Json → Option (List Json)
list_of (list vs) = some (elems vs)
list_of (dict fs) = some (map (λ row. str row.0) (props fs))
list_of (str s) = some (chars s)
list_of v = none

-- `dict.fromkeys`: each text at its first place
unfoldable pub unique : List String → List String → List String
unique seen [] = []
unique seen (t ∷ ts) = elim (contains t seen) [
  | true ↦ unique seen ts
  | false ↦ t ∷ unique (t ∷ seen) ts
]

or_default_text : String → String
or_default_text joined = if is_empty joined then "Redfish error" else joined

with_status : ℕ → String → String
unfolding show
with_status status body = if status =? 0 then body else body <> (" (HTTP " <> (show status <> ")"))

module _ (repr : String → String) where
  -- str(v or "")
  abbrev text_or_empty : Json → String
  text_or_empty v = if truthy v then to_text repr v else ""

  redfish_error_from_payload : ℕ → Json → RedfishError
  unfolding lookup to_text
  redfish_error_from_payload status null = record (blank_error status) { message = "" }
  redfish_error_from_payload status (dict fs) =
      let payload = props fs in
      record {
        status_code = status;
        code = text_or_empty (get_or (str "") (lookup "code" payload));
        message =
            text_or_empty
              (get_or (get_or (str "") (lookup "Message" payload)) (lookup "message" payload));
        message_extended = extended_info (or_null (lookup "@Message.ExtendedInfo" payload));
        exception_msg = "";
      }
  redfish_error_from_payload status v = record (blank_error status) { message = to_text repr v }

  -- The document, by the value of its key `error`.
  error_of_document : ℕ → Dict Json → Json → RedfishError
  unfolding redfish_error_from_payload
  error_of_document status doc (dict fs) = redfish_error_from_payload status (dict fs)
  error_of_document status doc null = redfish_error_from_payload status (object doc)
  error_of_document status doc v = redfish_error_from_payload status (object (("message", v) ∷ []))

  error_of_body : ℕ → Json → RedfishError
  unfolding error_of_document lookup
  error_of_body status (dict fs) =
      error_of_document status (props fs) (or_null (lookup "error" (props fs)))
  error_of_body status v = redfish_error_from_payload status v

  pub parse_error : Response → RedfishError
  unfolding error_of_body
  parse_error response = elim response.body [
    | decoded v ↦ error_of_body response.status_code v
    | undecodable text ↦ record (blank_error response.status_code) { exception_msg = text }
  ]

  -- f"{mid} {list(args)}", and "" where `list` raises
  abbrev with_args : String → Option (List Json) → String
  with_args mid none = ""
  with_args mid (some args) = mid <> (" " <> to_text repr (list (items args)))

  -- An entry of `message_extended`, which holds dicts.
  fmt_message : Dict Json → String
  unfolding get to_text
  fmt_message m =
      let msg = get m "Message" in
      let mid = get m "MessageId" in
      let args = get m "MessageArgs" in
      if truthy msg
      then to_text repr msg
      else if truthy mid
      then (if truthy args then with_args (to_text repr mid) (list_of args) else to_text repr mid)
      else ""

  abbrev non_empty : List String → List String
  non_empty [] = []
  non_empty (t ∷ ts) = let rest = non_empty ts in if is_empty t then rest else t ∷ rest

  -- The texts that `__str__` joins, before the duplicates and the empty ones are dropped.
  error_parts : RedfishError → List String
  unfolding fmt_message
  error_parts e =
      (if not (is_empty e.message) && not (e.message == "root") then e.message ∷ [] else [])
      ++ (map fmt_message e.message_extended ++ (e.exception_msg ∷ []))

  -- RedfishError.__str__
  pub error_text : RedfishError → String
  unfolding error_parts unique join
  error_text e =
      with_status e.status_code
        (or_default_text (join "; " (unique [] (non_empty (error_parts e)))))

  -- str(e) of what a manager raises
  unfoldable pub exn_text : Exn → String
  exn_text (unauthorized e) = error_text e
  exn_text (forbidden e) = error_text e
  exn_text (not_found e) = error_text e
  exn_text (authentication_failed t) = t
  exn_text (unsupported_action t) = t
  exn_text (task_id_unavailable t) = t
  exn_text (python_error t) = t
  exn_text (invalid_argument t) = t
  exn_text (transport t) = t
