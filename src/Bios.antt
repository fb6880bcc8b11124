-- ===== src/Bios.antt =====
-- redfish_ctl/bios/cmd_bios_profile.py: the catalog of BIOS profiles and the diff of one with a node.
pub mod Command
pub mod Diff
pub mod Apply
mod Tests
use redfish_ctl.Common.{
  ℕ, zero, suc, ◌+◌, String, ◌<>◌, Bool, true, false, not, ◌&&◌, Option, none, some, List, [], ◌∷◌,
  ◌==◌, ◌=?◌, if◌then◌else◌,
}
use redfish_ctl.Common.Dict.{Dict, lookup}
use redfish_ctl.Common.Effect.{Result, ok, raised}
use redfish_ctl.Json.{Json, null, str, dict, list, items, props, object, get, truthy}
use redfish_ctl.Json.Equality.{equal}
use redfish_ctl.Http.{Exn, python_error}

pub data RowStatus : Type 0 where
  matching different missing : RowStatus

pub record DiffRow : Type 0 where
  pub attribute : String
  pub current : Json
  pub desired : Json
  pub status : RowStatus

pub record Counts : Type 0 where
  pub total : ℕ
  pub matching_count : ℕ
  pub different_count : ℕ
  pub missing_count : ℕ

pub record BiosDiff : Type 0 where
  pub profile : Json
  pub is_match : Bool
  pub summary : Counts
  pub attributes : List DiffRow

abbrev selected : Dict Json → List String → Dict Json
unfolding get
selected profile [] = []
selected profile (key ∷ keys) = (key, get profile key) ∷ selected profile keys

unfoldable pub summary_of : Dict Json → Json
unfolding selected
summary_of profile =
    object (selected profile ("name" ∷ "vendor" ∷ "model" ∷ "description" ∷ "risk" ∷ []))

unfoldable pub profile_identity : Dict Json → Json
unfolding selected
profile_identity profile = object (selected profile ("name" ∷ "vendor" ∷ "model" ∷ "risk" ∷ []))

abbrev has_name : String → Json → Bool
has_name name (str t) = t == name
has_name name _ = false

unfoldable pub find_profile : List (Dict Json) → String → Option (Dict Json)
unfolding get
find_profile [] name = none
find_profile (profile ∷ profiles) name =
    if has_name name (get profile "name") then some profile else find_profile profiles name

abbrev inner : Dict Json → Json → Dict Json
inner outer (dict fs) = props fs
inner outer _ = outer

unfoldable pub attributes_from_bios_result : Json → Dict Json
unfolding get
attributes_from_bios_result (dict fs) = inner (props fs) (get (props fs) "Attributes")
attributes_from_bios_result _ = []

-- profile.get("attributes", {}).items()
abbrev items_of : Option Json → Result Exn (Dict Json)
items_of none = ok []
items_of (some (dict fs)) = ok (props fs)
items_of (some v) = raised (python_error "items")

unfoldable pub desired_attributes : Dict Json → Result Exn (Dict Json)
unfolding lookup
desired_attributes profile = items_of (lookup "attributes" profile)

abbrev row_status : Option Json → Json → RowStatus
row_status none desired = missing
row_status (some current) desired = if equal current desired then matching else different

abbrev or_none : Option Json → Json
or_none none = null
or_none (some v) = v

abbrev pub row_of : Dict Json → String → Json → DiffRow
unfolding lookup equal
row_of current name desired = record {
  attribute = name;
  current = or_none (lookup name current);
  desired = desired;
  status = row_status (lookup name current) desired;
}

abbrev tally : RowStatus → Counts → Counts
tally matching c = record {
  total = suc c.total;
  matching_count = suc c.matching_count;
  different_count = c.different_count;
  missing_count = c.missing_count;
}
tally different c = record {
  total = suc c.total;
  matching_count = c.matching_count;
  different_count = suc c.different_count;
  missing_count = c.missing_count;
}
tally missing c = record {
  total = suc c.total;
  matching_count = c.matching_count;
  different_count = c.different_count;
  missing_count = suc c.missing_count;
}

-- The loop over the desired attributes, with the counts so far.
unfoldable pub diff_rows : Dict Json → Dict Json → Counts → List DiffRow × Counts
unfolding row_of
diff_rows current [] c = ([], c)
diff_rows current ((name, desired) ∷ attributes) c =
    let row = row_of current name desired in
    let rest = diff_rows current attributes (tally row.status c) in (row ∷ rest.0, rest.1)

abbrev no_counts : Counts
no_counts = record { total = 0; matching_count = 0; different_count = 0; missing_count = 0 }

abbrev reported : Dict Json → List DiffRow × Counts → BiosDiff
unfolding profile_identity
reported profile (rows, c) = record {
  profile = profile_identity profile;
  is_match = (c.different_count =? 0) && (c.missing_count =? 0);
  summary = c;
  attributes = rows;
}

unfoldable pub diff_profile : Dict Json → Dict Json → Result Exn BiosDiff
unfolding desired_attributes diff_rows reported
diff_profile profile current = with_items (desired_attributes profile)
  where
    with_items : Result Exn (Dict Json) → Result Exn BiosDiff
    with_items (ok attributes) = ok (reported profile (diff_rows current attributes no_counts))
    with_items (raised e) = raised e
