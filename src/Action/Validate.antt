-- ===== src/Action/Validate.antt =====
-- redfish_ctl/redfish_manager.py: _validate_action_payload.
pub mod Fits
mod Tests
use redfish_ctl.Common.{
  ℕ, String, Bool, true, false, Option, none, some, List, [], ◌∷◌, ◌++◌, map, ltb, if◌then◌else◌,
}
use redfish_ctl.Common.Dict.{Dict, lookup}
use redfish_ctl.Common.Effect.{Result, ok, raised, ◌>>=ᴿ◌}
use redfish_ctl.Common.Text.{text_lt}
use redfish_ctl.Json.{Json, bool, int, neg, str, list, elems, items, truthy, object}
use redfish_ctl.Json.Equality.{member}
use redfish_ctl.Http.{Exn, python_error}
use redfish_ctl.Http.Error.{list_of}
use redfish_ctl.Action.{RedfishAction}

pub record ValidationError : Type 0 where
  pub parameter : String
  pub value : Json
  pub allowed : List Json

-- The JSON form of an error, as the command returns it.
abbrev pub error_json : ValidationError → Json
error_json e =
    object (
      ("parameter", str e.parameter)
      ∷ ("value", e.value)
      ∷ ("allowed", list (items e.allowed))
      ∷ [])

abbrev number_of : Bool → ℕ
number_of true = 1
number_of false = 0

-- v < w; `none` where Python raises. Lists, which Python compares item by item, are left out.
abbrev value_lt : Json → Json → Option Bool
value_lt (str s) (str t) = some (text_lt s t)
value_lt (int n) (int m) = some (ltb n m)
value_lt (int n) (bool b) = some (ltb n (number_of b))
value_lt (bool a) (int m) = some (ltb (number_of a) m)
value_lt (bool a) (bool b) = some (ltb (number_of a) (number_of b))
value_lt (neg n) (neg m) = some (ltb m n)
value_lt (neg n) (int m) = some true
value_lt (neg n) (bool b) = some true
value_lt (int n) (neg m) = some false
value_lt (bool a) (neg m) = some false
value_lt v w = none

insert_value : Json → List Json → Result Exn (List Json)
insert_value v [] = ok (v ∷ [])
insert_value v (w ∷ ws) =
    let rest = insert_value v ws in
    elim (value_lt w v) [
      | none ↦ raised (python_error "sorted")
      | some true ↦ rest >>=ᴿ λ us. ok (w ∷ us)
      | some false ↦ ok (v ∷ w ∷ ws)
    ]

-- sorted(values)
sort_values : List Json → Result Exn (List Json)
unfolding insert_value
sort_values [] = ok []
sort_values (v ∷ vs) = sort_values vs >>=ᴿ insert_value v

-- tuple(v or ())
abbrev tuple_of : Json → Result Exn (List Json)
tuple_of v =
    if truthy v
    then (elim (list_of v) [ none ↦ raised (python_error "tuple") | some vs ↦ ok vs ])
    else ok []

-- `parameters`: the values that each parameter allows, where an empty list allows every one.
pub parameters_of : Dict Json → Result Exn (Dict (List Json))
parameters_of [] = ok []
parameters_of ((name, values) ∷ args) =
    tuple_of values >>=ᴿ λ allowed. parameters_of args >>=ᴿ λ rest. ok ((name, allowed) ∷ rest)

-- The items that are not allowed.
abbrev pub outside : List Json → List Json → List Json
outside allowed [] = []
outside allowed (v ∷ vs) =
    let rest = outside allowed vs in if member v allowed then rest else v ∷ rest

-- value if isinstance(value, list) else [value]
abbrev pub values_of : Json → List Json
values_of (list vs) = elems vs
values_of v = v ∷ []

abbrev reported : List Json → Json
reported (v ∷ []) = v
reported vs = list (items vs)

-- One round of the loop, for a parameter with a list of allowed values.
check_value : String → Json → List Json → List Json → Result Exn (List ValidationError)
unfolding sort_values
check_value name value [] invalid = ok []
check_value name value allowed [] = ok []
check_value name value allowed invalid = sort_values allowed >>=ᴿ λ sorted.
    ok (record { parameter = name; value = reported invalid; allowed = sorted } ∷ [])

abbrev check_parameter :
    Bool → String → Json → Option (List Json) → Result Exn (List ValidationError)
check_parameter strict name value none =
    ok (if strict then record { parameter = name; value = value; allowed = [] } ∷ [] else [])
check_parameter strict name value (some allowed) =
    check_value name value allowed (outside allowed (values_of value))

check_payload : Bool → Dict (List Json) → Dict Json → Result Exn (List ValidationError)
unfolding check_value lookup
check_payload strict parameters [] = ok []
check_payload strict parameters ((name, value) ∷ payload) =
    check_parameter strict name value (lookup name parameters) >>=ᴿ λ here.
    check_payload strict parameters payload >>=ᴿ λ rest. ok (here ++ rest)

-- `if not parameters: return []`
check_against : Bool → Dict (List Json) → Dict Json → Result Exn (List ValidationError)
unfolding check_payload
check_against strict [] payload = ok []
check_against strict parameters payload = check_payload strict parameters payload

pub texts_of : Dict (List String) → Dict (List Json)
texts_of [] = []
texts_of ((name, values) ∷ params) = (name, map str values) ∷ texts_of params

abbrev pub args_of : Option RedfishAction → Dict Json
args_of none = []
args_of (some action) = action.args

-- `schema` is the parsed CSDL bundle: the parameters of an action type, with the values each allows.
module _ (schema : String → Dict (List String)) where
  with_args : String → Dict Json → Dict Json → Result Exn (List ValidationError)
  unfolding check_against parameters_of texts_of
  with_args full_action_type [] payload =
      check_against true (texts_of (schema full_action_type)) payload
  with_args full_action_type args payload =
      parameters_of args >>=ᴿ λ parameters. check_against false parameters payload

  unfoldable pub validate_action_payload :
      String → Option RedfishAction → Dict Json → Result Exn (List ValidationError)
  unfolding with_args
  validate_action_payload full_action_type action payload =
      with_args full_action_type (args_of action) payload
