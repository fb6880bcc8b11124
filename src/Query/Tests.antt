-- ===== src/Query/Tests.antt =====
-- Query strings.
use redfish_ctl.Common.{String, ◌<>◌, ◌≡◌, ◌⊎◌, refl, true, false, none, some, [], ◌∷◌}
use redfish_ctl.Common.Effect.{ok, raised}
use redfish_ctl.Json.{null, int, neg}
use redfish_ctl.Query.{
  RedfishQuery, ValueError, value_error, unselected, names, unexpanded, flag, mode, quote,
  to_query_string, apply, active_names,
}
use redfish_ctl.Query.Valid.{IsValid}
use redfish_ctl.Query.Parts.{ReadsAs, to_query_string_reads}

abbrev quoted : String → String
quoted t = "'" <> (t <> "'")

abbrev full : RedfishQuery
full = record {
  select = names ("Name" ∷ "Power State" ∷ []);
  filter = some "Id eq 'é' & x";
  expand = flag true;
  expand_levels = int 2;
  top = int 5;
  only = true;
}

abbrev single : RedfishQuery
single = record {
  select = unselected;
  filter = none;
  expand = mode ".";
  expand_levels = int 1;
  top = null;
  only = false;
}

abbrev below_zero : RedfishQuery
below_zero = record {
  select = unselected;
  filter = none;
  expand = unexpanded;
  expand_levels = int 1;
  top = neg 0;
  only = false;
}

full_string :
    to_query_string quoted full false
    ≡ ok
        "?$select=Name,Power%20State&$filter=Id%20eq%20'%C3%A9'%20%26%20x&$expand=*($levels=2)&$top=5&only"
unfolding to_query_string
full_string = refl

euro_sign : quote "€😀" ≡ "%E2%82%AC%F0%9F%98%80"
unfolding quote
euro_sign = refl

only_one :
    to_query_string quoted full true
    ≡ raised (
        value_error
          "this service supports only one query parameter per URI; got $select, $filter, $expand, $top, only")
unfolding to_query_string
only_one = refl

applied :
    apply quoted single "/redfish/v1/Systems" true ≡ ok "/redfish/v1/Systems?$expand=.($levels=1)"
unfolding apply
applied = refl

negative_top :
    to_query_string quoted (below_zero) false ≡ raised (value_error "$top must be an integer >= 0")
unfolding to_query_string
negative_top = refl

to_query_string_reads_example :
    (IsValid full false
      × (s : String) × (to_query_string quoted full false ≡ ok s)
      × ReadsAs s (active_names full))
    ⊎ (¬ IsValid full false × (e : ValueError) × (to_query_string quoted full false ≡ raised e))
to_query_string_reads_example = to_query_string_reads quoted full false tt
