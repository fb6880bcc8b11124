-- ===== src/Action/Discover.antt =====
-- redfish_ctl/redfish_manager.py: _flatten_action_targets, _get_actions, discover_redfish_actions.
pub mod Offers
pub mod Provenance
use redfish_ctl.Common.{
  String, Bool, true, false, Option, none, some, List, [], ◌∷◌, ◌==◌, if◌then◌else◌,
}
use redfish_ctl.Common.Dict.{Dict, lookup, insert}
use redfish_ctl.Common.Effect.{Result, ok, raised, ◌>>=ᴿ◌}
use redfish_ctl.Common.Text.{split, last_of, first_of, occurs}
use redfish_ctl.Json.{Json, str, list, dict, nil, props, truthy, mapping, get, object}
use redfish_ctl.Http.{Exn, python_error}
use redfish_ctl.Action.{RedfishAction}

-- `val.get("target")` where `val` is a dict that has a true one
abbrev target_of : Json → Option Json
target_of (dict fs) =
    let target = get (props fs) "target" in if truthy target then some target else none
target_of v = none

abbrev add_target : String → Option Json → Dict Json → Dict Json
add_target key none out = out
add_target key (some target) out = insert key target out

-- for key, val in entries.items(): if val is a dict with a target: out[key] = val["target"]
unfoldable pub add_targets : Dict Json → Dict Json → Dict Json
unfolding insert get
add_targets [] out = out
add_targets ((key, val) ∷ entries) out = add_targets entries (add_target key (target_of val) out)

abbrev is_dict : Json → Bool
is_dict (dict fs) = true
is_dict v = false

-- The loop over `Actions`, where `Oem` holds one more level.
unfoldable pub add_actions : Dict Json → Dict Json → Dict Json
unfolding add_targets
add_actions [] out = out
add_actions ((key, val) ∷ entries) out = add_actions entries (
    if key == "Oem"
    then (if is_dict val then add_targets (mapping val) out else out)
    else add_target key (target_of val) out)

-- The `Actions` of each vendor's extension under the resource's `Oem`.
unfoldable pub add_extensions : Dict Json → Dict Json → Dict Json
unfolding add_targets get
add_extensions [] out = out
add_extensions ((vendor, ext) ∷ exts) out =
    add_extensions exts (add_targets (mapping (get (mapping ext) "Actions")) out)

-- `resource.get(key) or {}`
abbrev or_empty : Json → Json
or_empty v = if truthy v then v else object []

unfoldable pub flatten_action_targets : Dict Json → Dict Json
unfolding add_actions add_extensions get
flatten_action_targets resource =
    let actions = or_empty (get resource "Actions") in
    if is_dict actions
    then add_extensions (mapping (get resource "Oem")) (add_actions (mapping actions) [])
    else []

-- The source's two dicts have the same keys: a row is a short name with its full name and its description.
abbrev pub Found : Type 0
Found = Dict (String × Json)

-- `name.split(".")[-1]`, and nothing for a name with no dot
abbrev after_dot : List String → Option String
after_dot [] = none
after_dot (w ∷ []) = none
after_dot (w ∷ v ∷ ws) = some (last_of v ws)

abbrev add_found : String → Json → Option String → Found → Found
add_found full val none out = out
add_found full val (some short) out = insert short (full, val) out

add_members : Dict Json → Found → Found
unfolding insert split last_of
add_members [] out = out
add_members ((key, val) ∷ entries) out =
    add_members entries (add_found key val (after_dot (split b'.' key)) out)

pub unfiltered_loop : Dict Json → Found → Found
unfolding add_members
unfiltered_loop [] out = out
unfiltered_loop ((key, val) ∷ entries) out = unfiltered_loop entries (
    if key == "Oem"
    then (if is_dict val then add_members (mapping val) out else out)
    else add_found key val (after_dot (split b'.' key)) out)

-- Iterating over a number or over `None` raises, and so does taking an entry of a list or of a text by its element.
found_in : Option Json → Result Exn Found
unfolding unfiltered_loop
found_in none = ok []
found_in (some (dict fs)) = ok (unfiltered_loop (props fs) [])
found_in (some (list nil)) = ok []
found_in (some (str String.[])) = ok []
found_in (some v) = raised (python_error "Actions")

pub get_actions : Dict Json → Result Exn Found
unfolding found_in lookup
get_actions resource = found_in (lookup "Actions" resource)

-- The annotations `Name@Redfish.AllowableValues`, by `Name`.
allowable_args : Dict Json → Dict Json → Dict Json
unfolding occurs split insert
allowable_args [] out = out
allowable_args ((key, val) ∷ entries) out = allowable_args entries (
    if occurs "@Redfish.AllowableValues" key
    then insert (first_of "" (split b'@' key)) val out
    else out)

-- An action that has a target.
abbrev add_targeted :
    String → String → Dict Json → Option Json → Dict RedfishAction → Dict RedfishAction
add_targeted short full row none out = out
add_targeted short full row (some target) out =
    insert short
      (record {
        action_name = short;
        target = target;
        full_redfish_name = full;
        args = allowable_args row [];
      })
      out

-- One round of the loop: `'target' not in val` raises on a number or on `None`.
add_action : String → String × Json → Dict RedfishAction → Result Exn (Dict RedfishAction)
unfolding allowable_args lookup insert
add_action short (full, dict fs) out =
    ok (add_targeted short full (props fs) (lookup "target" (props fs)) out)
add_action short (full, list vs) out = ok out
add_action short (full, str s) out = ok out
add_action short (full, v) out = raised (python_error "target")

add_found_actions : Found → Dict RedfishAction → Result Exn (Dict RedfishAction)
unfolding add_action
add_found_actions [] out = ok out
add_found_actions ((short, described) ∷ found) out =
    add_action short described out >>=ᴿ add_found_actions found

unfoldable pub discover_redfish_actions : Dict Json → Result Exn (Dict RedfishAction)
unfolding get_actions add_found_actions
discover_redfish_actions resource = get_actions resource >>=ᴿ λ found. add_found_actions found []
