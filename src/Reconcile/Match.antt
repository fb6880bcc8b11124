-- ===== src/Reconcile/Match.antt =====
-- redfish_ctl/reconcile.py: whether the node is already in the desired state.
use redfish_ctl.Common.{
  String, Bool, true, false, not, ◌&&◌, ◌||◌, Option, none, some, List, [], ◌∷◌, ◌==◌,
  if◌then◌else◌,
}
use redfish_ctl.Common.Dict.{Dict}
use redfish_ctl.Common.Effect.{Result, ok, ◌>>=ᴿ◌}
use redfish_ctl.Common.Text.{is_empty}
use redfish_ctl.Json.{Json, null, bool, str, truthy, mapping, get, optional}
use redfish_ctl.Json.Equality.{equal}
use redfish_ctl.Reconcile.Desired.{DesiredState, ReconcileError, optional_str, str_tuple}

abbrev is_none : Json → Bool
is_none null = true
is_none v = false

abbrev is_true : Json → Bool
is_true (bool true) = true
is_true v = false

abbrev same_texts : List String → List String → Bool
same_texts [] [] = true
same_texts (s ∷ ss) (t ∷ ts) = s == t && same_texts ss ts
same_texts ss ts = false

abbrev same_text : Option String → Option String → Bool
same_text none none = true
same_text (some s) (some t) = s == t
same_text s t = false

-- _ntp_row_is_capable
unfoldable pub ntp_row_is_capable : Dict Json → Bool
unfolding get
ntp_row_is_capable ntp = not (is_none (get ntp "ProtocolEnabled")) || truthy (get ntp "NTPServers")

-- One row of the loop: skip it, end with False, or count it.
pub data Verdict : Type 0 where
  skip mismatch comparable : Verdict

-- `if state.ntp_manager_id` is a test that an empty id fails too.
abbrev other_manager : Option String → Option String → Bool
other_manager none manager = false
other_manager (some wanted) manager = not (is_empty wanted) && not (same_text manager (some wanted))

abbrev pub is_set : Option String → Bool
is_set none = false
is_set (some t) = not (is_empty t)

module _ (repr : String → String) where
  row_verdict : Dict Json → DesiredState → Result ReconcileError Verdict
  unfolding ntp_row_is_capable get optional_str str_tuple
  row_verdict row state =
      let ntp = mapping (get row "NTP") in
      let servers_match = str_tuple repr (get ntp "NTPServers") >>=ᴿ λ servers.
      ok (if same_texts servers state.ntp_servers then comparable else mismatch) in
      if other_manager state.ntp_manager_id (optional_str repr (get row "Manager"))
      then ok skip
      else if not (ntp_row_is_capable ntp)
      then ok (if is_set state.ntp_manager_id then mismatch else skip)
      else if not (is_true (get ntp "ProtocolEnabled"))
      then ok mismatch
      else servers_match

  -- The loop; `seen` is `bool(comparable_rows)`.
  match_rows : List (Dict Json) → DesiredState → Bool → Result ReconcileError Bool
  unfolding row_verdict
  match_rows [] state seen = ok seen
  match_rows (row ∷ rows) state seen = row_verdict row state >>=ᴿ λ v. elim v [
    | skip ↦ match_rows rows state seen
    | mismatch ↦ ok false
    | comparable ↦ match_rows rows state true
  ]

  -- _ntp_already_matches
  unfoldable pub ntp_already_matches : List (Dict Json) → DesiredState → Result ReconcileError Bool
  unfolding match_rows
  ntp_already_matches rows state = match_rows rows state false

-- `state.x is not None and current.get(key) != state.x`
abbrev differs : Option String → Json → Bool
differs none v = false
differs (some t) v = not (equal v (str t))

-- _boot_already_matches
unfoldable pub boot_already_matches : Dict Json → DesiredState → Bool
unfolding get equal
boot_already_matches current state =
    let desired_enabled : String =
      (if same_text state.boot_device (some "None") then "Disabled" else "Once") in
    if not (equal (get current "BootSourceOverrideEnabled") (str desired_enabled))
    then false
    else if not (equal (get current "BootSourceOverrideTarget") (optional state.boot_device))
    then false
    else if differs state.boot_mode (get current "BootSourceOverrideMode")
    then false
    else if differs state.uefi_target (get current "UefiTargetBootSourceOverride")
    then false
    else true
