-- ===== src/Fleet.antt =====
-- redfish_ctl/fleet/cmd_fleet.py: the nodes of a fleet, read by a pool of threads.
pub mod Inventory
pub mod Loaded
pub mod Laws
mod Tests
use redfish_ctl.Common.{
  ℕ, zero, suc, ◌+◌, ◌-◌, String, Bool, true, false, Option, none, some, List, [], ◌∷◌, leb, ◌=?◌,
  if◌then◌else◌, length, get_elem?,
}
use redfish_ctl.Common.Int.{ℤ, pos, negsuc}
use redfish_ctl.Json.{Json, null, bool, int, str, object}

pub record FleetNode : Type 0 where
  pub name : String
  pub address : String
  pub username : String
  pub password : String
  pub port : ℤ
  pub insecure : Bool
  pub use_http : Bool

-- What the typed facade reads of a node.
pub record Readings : Type 0 where
  pub power_state : Json
  pub health : Json
  pub state : Json
  pub sensors : ℕ
  pub temperature : Json

-- The reads of one node: its readings, an error that read_node catches (RedfishApiError, OSError,
-- ValueError), or another one, each with its text.
pub data Outcome : Type 0 where
  readings : Readings → Outcome
  caught uncaught : String → Outcome

-- The summary of a node; `error` is there exactly in an error row.
pub record Row : Type 0 where
  pub name : String
  pub address : String
  pub is_ok : Bool
  pub power_state : Json
  pub health : Json
  pub state : Json
  pub sensors : ℕ
  pub temperature : Json
  pub error : Option String

abbrev pub error_row : FleetNode → String → Row
error_row node e = record {
  name = node.name;
  address = node.address;
  is_ok = false;
  power_state = null;
  health = null;
  state = null;
  sensors = 0;
  temperature = object (("count", int 0) ∷ ("max_celsius", null) ∷ []);
  error = some e;
}

abbrev pub ok_row : FleetNode → Readings → Row
ok_row node r = record {
  name = node.name;
  address = node.address;
  is_ok = true;
  power_state = r.power_state;
  health = r.health;
  state = r.state;
  sensors = r.sensors;
  temperature = r.temperature;
  error = none;
}

-- A future's result: the row, or the text of the exception.
pub data Future : Type 0 where
  done : Row → Future
  broken : String → Future

abbrev pub read_node : FleetNode → Outcome → Future
read_node node (readings r) = done (ok_row node r)
read_node node (caught e) = done (error_row node e)
read_node node (uncaught e) = broken e

-- A dict whose keys are numbers.
abbrev pub Rows : Type 0
Rows = List (ℕ × Row)

abbrev pub row_at : ℕ → Rows → Option Row
row_at i [] = none
row_at i ((j, r) ∷ rows) = if j =? i then some r else row_at i rows

abbrev pub set_row : ℕ → Row → Rows → Rows
set_row i r [] = (i, r) ∷ []
set_row i r ((j, q) ∷ rows) =
    let rest = set_row i r rows in if j =? i then (i, r) ∷ rows else (j, q) ∷ rest

pub record Fleet : Type 0 where
  pub total : ℕ
  pub ok_count : ℕ
  pub failed : ℕ
  pub nodes : List Row

abbrev pub count_ok : List Row → ℕ
count_ok [] = 0
count_ok (r ∷ rows) = if r.is_ok then suc (count_ok rows) else count_ok rows

-- The rows of the indices in their order; a missing one is a KeyError, here `none`.
abbrev pub with_row : Option Row → Option (List Row) → Option (List Row)
with_row (some r) (some rows) = some (r ∷ rows)
with_row _ _ = none

unfoldable pub collect : ℕ → ℕ → Rows → Option (List Row)
collect i zero rows = some []
collect i (suc n) rows = with_row (row_at i rows) (collect (suc i) n rows)

abbrev pub summarized : Option (List Row) → Option Fleet
summarized none = none
summarized (some rows) = some (record {
  total = length rows;
  ok_count = count_ok rows;
  failed = length rows - count_ok rows;
  nodes = rows;
})

abbrev min : ℕ → ℕ → ℕ
min a b = if leb a b then a else b

-- max(1, min(int(concurrency or 1), len(nodes)))
unfoldable pub max_concurrency : ℤ → ℕ → ℕ
max_concurrency (pos zero) n = if leb 1 (min 1 n) then min 1 n else 1
max_concurrency (pos (suc c)) n = if leb 1 (min (suc c) n) then min (suc c) n else 1
max_concurrency (negsuc c) n = 1

-- `outcome` is what the reads of a node come to.
module _ (outcome : FleetNode → Outcome) where
  abbrev pub future_row : FleetNode → Future → Row
  future_row node (done r) = r
  future_row node (broken e) = error_row node e

  abbrev pub node_row : FleetNode → Row
  node_row node = future_row node (read_node node (outcome node))

  abbrev set_node : ℕ → Rows → Option FleetNode → Rows
  set_node i rows none = rows
  set_node i rows (some node) = set_row i (node_row node) rows

  -- The row of one completed future, recorded under its index.
  abbrev pub complete : List FleetNode → ℕ → Rows → Rows
  complete nodes i rows = set_node i rows (get_elem? nodes i)

  -- The loop over as_completed, for the indices in the order of completion.
  unfoldable pub completed : List FleetNode → List ℕ → Rows → Rows
  completed nodes [] rows = rows
  completed nodes (i ∷ order) rows = completed nodes order (complete nodes i rows)

  unfoldable pub read_fleet : List FleetNode → List ℕ → Option Fleet
  unfolding completed collect
  read_fleet [] order = some (record { total = 0; ok_count = 0; failed = 0; nodes = [] })
  read_fleet (node ∷ nodes) order =
      summarized (collect 0 (length (node ∷ nodes)) (completed (node ∷ nodes) order []))
