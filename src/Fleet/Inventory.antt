-- ===== src/Fleet/Inventory.antt =====
-- redfish_ctl/fleet/cmd_fleet.py: load_inventory, from the parsed YAML on. Numbers with a fraction are
-- left out.
use redfish_ctl.Common.{
  ℕ, suc, String, Bool, true, false, not, Option, none, some, List, [], ◌∷◌, if◌then◌else◌,
}
use redfish_ctl.Common.Dict.{Dict, lookup}
use redfish_ctl.Common.Effect.{Result, ok, raised, ◌>>=ᴿ◌}
use redfish_ctl.Common.Int.{ℤ, pos, negsuc, int_of_text}
use redfish_ctl.Config.{Env, named_env, is_truthy_flag}
use redfish_ctl.Json.{
  Json, Items, null, bool, int, neg, str, list, dict, elems, props, truthy, get, object, to_text,
}
use redfish_ctl.Fleet.{FleetNode}

-- A ValueError or a TypeError, with its text or that of the value.
pub data InventoryError : Type 0 where
  missing_address : ℕ → InventoryError
  invalid_literal : String → InventoryError
  not_a_number : InventoryError
  not_iterable : InventoryError

-- a or b
abbrev pub or_value : Json → Json → Json
or_value a b = if truthy a then a else b

abbrev pub is_null : Json → Bool
is_null null = true
is_null _ = false

-- raw.get(k, default)
abbrev pub get_or : Dict Json → String → Json → Json
get_or d k default = or_default (lookup k d)
  where
    or_default : Option Json → Json
    or_default none = default
    or_default (some v) = v

abbrev pub mappings : List Json → List (Dict Json)
mappings [] = []
mappings (dict fs ∷ vs) = props fs ∷ mappings vs
mappings (_ ∷ vs) = mappings vs

-- The rows of a value that is iterated; the keys of a dict and the letters of a text are texts.
abbrev iterated : Json → Result InventoryError (List (Dict Json))
iterated (list vs) = ok (mappings (elems vs))
iterated (dict fs) = ok []
iterated (str t) = ok []
iterated v = raised not_iterable

unfoldable pub inventory_nodes : Json → Result InventoryError (List (Dict Json))
unfolding lookup
inventory_nodes (list vs) = ok (mappings (elems vs))
inventory_nodes (dict fs) = iterated (get_or (props fs) "nodes" (list Items.nil))
inventory_nodes v = ok []

unfoldable pub as_bool : Json → Bool → Bool
unfolding is_truthy_flag
as_bool null default = default
as_bool (bool b) default = b
as_bool (str t) default = is_truthy_flag t
as_bool v default = truthy v

abbrev pub parsed : String → Option ℤ → Result InventoryError ℤ
parsed t none = raised (invalid_literal t)
parsed t (some n) = ok n

unfoldable pub as_int : Json → ℤ → Result InventoryError ℤ
unfolding int_of_text
as_int null default = ok default
as_int (bool true) default = ok (pos 1)
as_int (bool false) default = ok (pos 0)
as_int (int n) default = ok (pos n)
as_int (neg n) default = ok (negsuc n)
as_int (str t) default = parsed t (int_of_text t)
as_int v default = raised not_a_number

module _ (repr : String → String) (env : Env) where
  abbrev pub or_text : Option String → String → String
  or_text none default = default
  or_text (some t) default = t

  unfoldable pub env_value : Dict Json → String → String → String → String
  unfolding get to_text named_env
  env_value raw field env_field default =
      let value = get raw field in
      let env_name = get raw env_field in
      if not (is_null value)
      then to_text repr value
      else if truthy env_name
      then or_text (named_env env (to_text repr env_name) (some default)) default
      else default

  unfoldable pub address_of : Dict Json → Json
  unfolding get
  address_of raw = or_value (or_value (get raw "address") (get raw "host")) (get raw "ip")

  -- The entry of one row, whose address is true.
  unfoldable pub node_of : Dict Json → Result InventoryError FleetNode
  unfolding get to_text env_value as_int as_bool lookup address_of
  node_of raw =
      let address = to_text repr (address_of raw) in
      as_int (get raw "port") (pos 443) >>=ᴿ λ port. ok (record {
        name = to_text repr (or_value (get raw "name") (str address));
        address = address;
        username = env_value raw "username" "usernameEnv" "root";
        password = env_value raw "password" "passwordEnv" "";
        port = port;
        insecure = as_bool (get raw "insecure") true;
        use_http = as_bool (get_or raw "useHttp" (get raw "use_http")) false;
      })

  -- The loop over the rows, the first of which has the index given.
  unfoldable pub load_rows : ℕ → List (Dict Json) → Result InventoryError (List FleetNode)
  unfolding node_of address_of
  load_rows index [] = ok []
  load_rows index (raw ∷ rows) =
      let rest = load_rows (suc index) rows in
      if not (truthy (address_of raw))
      then raised (missing_address index)
      else node_of raw >>=ᴿ λ node. rest >>=ᴿ λ nodes. ok (node ∷ nodes)

  -- `data` is what yaml.safe_load gives.
  unfoldable pub load_inventory : Json → Result InventoryError (List FleetNode)
  unfolding load_rows inventory_nodes
  load_inventory loaded = inventory_nodes (or_value loaded (object [])) >>=ᴿ load_rows 1
