-- ===== src/Fleet/Tests.antt =====
-- A fleet of three nodes, one of which cannot be read, and inventories.
use redfish_ctl.Common.{
  ℕ, String, ◌≡◌, refl, true, false, some, List, [], ◌∷◌, arith, ◌==◌, if◌then◌else◌,
}
use redfish_ctl.Common.Dict.{Dict}
use redfish_ctl.Common.Effect.{ok, raised}
use redfish_ctl.Common.Int.{pos}
use redfish_ctl.Json.{Json, null, str, list, items, object}
use redfish_ctl.Fleet.{FleetNode, Outcome, readings, uncaught, read_fleet}
use redfish_ctl.Fleet.Inventory.{missing_address, or_value, inventory_nodes, load_inventory}
use redfish_ctl.Fleet.Laws.{IsCompletion, read_in_turn, read_fleet_order}
use redfish_ctl.Fleet.Loaded.{Explained, load_inventory_outcome}

abbrev node : String → FleetNode
node address = record {
  name = address;
  address = address;
  username = "root";
  password = "";
  port = pos 443;
  insecure = true;
  use_http = false;
}

abbrev three : List FleetNode
three = node "10.0.0.1" ∷ node "10.0.0.2" ∷ node "10.0.0.3" ∷ []

abbrev read_well : Outcome
read_well = readings (record {
  power_state = str "On";
  health = str "OK";
  state = str "Enabled";
  sensors = 4;
  temperature = null;
})

abbrev outcome : FleetNode → Outcome
outcome n = if n.address == "10.0.0.2" then uncaught "timed out" else read_well

abbrev order : List ℕ
order = 2 ∷ 0 ∷ 1 ∷ []

order-IsCompletion : IsCompletion 3 order
order-IsCompletion i = ground arith

read_fleet_order_example : read_fleet outcome three order ≡ some (read_in_turn outcome three)
read_fleet_order_example = read_fleet_order outcome three order order-IsCompletion

one_failed : (read_in_turn outcome three).failed ≡ 1
one_failed = refl

abbrev inventory : Json
inventory = object (
    (
      "nodes",
      list (items (object (("host", str "10.0.0.1") ∷ ("port", str "8443") ∷ []) ∷ object [] ∷ [])),
    )
    ∷ [])

abbrev quoted : String → String
quoted t = t

abbrev rows : List (Dict Json)
rows = (("host", str "10.0.0.1") ∷ ("port", str "8443") ∷ []) ∷ [] ∷ []

second_lacks : load_inventory quoted [] inventory ≡ raised (missing_address 2)
unfolding load_inventory
second_lacks = refl

rows_read : inventory_nodes (or_value inventory (object [])) ≡ ok rows
unfolding inventory_nodes
rows_read = refl

load_inventory_outcome_example : Explained quoted [] 1 rows (load_inventory quoted [] inventory)
load_inventory_outcome_example = load_inventory_outcome quoted [] inventory rows rows_read
