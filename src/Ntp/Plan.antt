-- ===== src/Ntp/Plan.antt =====
-- redfish_ctl/manager/cmd_ntp_set.py: the PATCH for each manager (_ntp_plan).
use redfish_ctl.Common.{
  String, ◌<>◌, Bool, true, false, not, ◌&&◌, ◌||◌, Option, none, some, List, [], ◌∷◌, ◌==◌, ltb,
  if◌then◌else◌, length,
}
use redfish_ctl.Common.Dict.{Dict, lookup, has}
use redfish_ctl.Common.Effect.{Result, ok, raised, Exec, pure, lift, ◌>>=◌}
use redfish_ctl.Common.Text.{is_empty, split, last_of}
use redfish_ctl.Json.{Json, null, bool, str, dict, props, truthy, object, texts, get, to_text}
use redfish_ctl.Http.{Exn, invalid_argument, python_error}

pub record PlanItem : Type 0 where
  pub manager : Json
  pub target : Json
  pub payload : Json

pub record Skipped : Type 0 where
  pub manager : Json
  pub target : Json
  pub reason : String

-- What the loop makes of one manager: nothing, if another one was asked for.
pub data Verdict : Type 0 where
  passed_over : Verdict
  planned : PlanItem → Verdict
  skips : Skipped → Verdict

abbrev pub limit_reason : String
limit_reason = "legacy Manager NTP resources support at most 2 servers"

abbrev pub with_enabled : List String → Dict Json
with_enabled [] = []
with_enabled (s ∷ ss) = ("ProtocolEnabled", bool true) ∷ []

-- The payload of a NetworkProtocol resource.
abbrev pub ntp_payload : List String → Json
ntp_payload servers =
    object (("NTP", object (("NTPServers", texts servers) ∷ with_enabled servers)) ∷ [])

-- The payload of a legacy NTP resource, for at most two servers.
abbrev pub legacy_fields : List String → Dict Json
legacy_fields [] = ("NTPEnable", bool false) ∷ []
legacy_fields (a ∷ []) = ("NTPEnable", bool true) ∷ ("PrimaryNTPServer", str a) ∷ []
legacy_fields (a ∷ b ∷ rest) =
    ("NTPEnable", bool true) ∷ ("PrimaryNTPServer", str a) ∷ ("SecondaryNTPServer", str b) ∷ []

unfoldable pub legacy_ntp_payload : List String → Result Exn Json
legacy_ntp_payload servers =
    if ltb 2 (length servers)
    then raised (invalid_argument limit_reason)
    else ok (object (legacy_fields servers))

-- The item, or the reason why a legacy resource cannot be patched.
unfoldable pub legacy_verdict : List String → Json → Json → Result Exn Verdict
unfolding legacy_ntp_payload
legacy_verdict servers manager target =
    if ltb 2 (length servers)
    then ok (skips (record { manager = manager; target = target; reason = limit_reason }))
    else item (legacy_ntp_payload servers)
  where
    item : Result Exn Json → Result Exn Verdict
    item (ok payload) =
        ok (planned (record { manager = manager; target = target; payload = payload }))
    item (raised e) = raised e

abbrev pub link_id : Json → Json
unfolding get
link_id (dict fs) = get (props fs) "@odata.id"
link_id _ = null

-- _link(data, key)
unfoldable pub link : Dict Json → String → Json
unfolding get link_id
link resource key = link_id (get resource key)

abbrev follow : Json → List String → Json
unfolding get
follow v [] = v
follow (dict fs) (k ∷ ks) = follow (get (props fs) k) ks
follow _ (k ∷ ks) = null

-- _nested_link(data, *keys)
unfoldable pub nested_link : Dict Json → List String → Json
unfolding follow link_id
nested_link resource keys = link_id (follow (object resource) keys)

-- manager_uri.rstrip("/")
abbrev keep_slash : String → String → String
keep_slash c rest = if (c == "/") && is_empty rest then "" else c <> rest

unfoldable pub rstrip_slash : String → String
rstrip_slash String.[] = ""
rstrip_slash (String.◌∷◌ c s) = keep_slash (String.◌∷◌ c String.[]) (rstrip_slash s)

abbrev has_supermicro : Json → Bool
unfolding lookup
has_supermicro (dict fs) = has "Supermicro" (props fs)
has_supermicro _ = false

unfoldable pub legacy_ntp_uri : Dict Json → String → Json
unfolding nested_link rstrip_slash get has_supermicro
legacy_ntp_uri manager manager_uri =
    let oem_uri = nested_link manager ("Oem" ∷ "Supermicro" ∷ "NTP" ∷ []) in
    if truthy oem_uri
    then oem_uri
    else if has_supermicro (get manager "Oem")
    then str (rstrip_slash manager_uri <> "/NTP")
    else null

unfoldable pub is_legacy_ntp_resource : Json → Bool
unfolding lookup
is_legacy_ntp_resource (dict fs) =
    has "NTPEnable" (props fs)
    || (has "PrimaryNTPServer" (props fs) || has "SecondaryNTPServer" (props fs))
is_legacy_ntp_resource _ = false

abbrev pub is_dict : Json → Bool
is_dict (dict fs) = true
is_dict _ = false

-- Whether a manager is another one than the one asked for.
abbrev is_text : String → Json → Bool
is_text t (str u) = u == t
is_text t _ = false

abbrev pub is_other : Option String → Json → Bool
is_other none id = false
is_other (some wanted) id = not (is_empty wanted) && not (is_text wanted id)

-- A resource in which the source looks a key up.
abbrev pub as_dict : Json → Result Exn (Dict Json)
as_dict (dict fs) = ok (props fs)
as_dict _ = raised (python_error "get")

abbrev pub or_empty : Json → Json
or_empty v = if truthy v then v else object []

module _ (repr : String → String) {S : Type 0} (query : String → Exec S Exn Json) where
  -- What a read that fails gives is an empty resource, marked as unreadable.
  abbrev pub after_get : Result Exn Json × S → Result Exn (Json × Bool) × S
  after_get (ok v, t) = (ok (or_empty v, true), t)
  after_get (raised e, t) = (ok (object [], false), t)

  unfoldable pub try_get : Json → Exec S Exn (Json × Bool)
  unfolding to_text
  try_get uri s =
      if truthy uri then after_get (query (to_text repr uri) s) else (ok (object [], false), s)

  module _ (servers : List String) where
    -- What is left where a manager has no NTP block.
    abbrev pub without_block : Json → Json → Json → Verdict
    without_block id network_uri legacy_uri =
        if truthy network_uri
        then skips
            (record { manager = id; target = network_uri; reason = "NTP block is not available" })
        else skips
            (record { manager = id; target = legacy_uri; reason = "NTP resource is not available" })

    unfoldable pub legacy : Json → Json → Json → Exec S Exn Verdict
    unfolding try_get is_legacy_ntp_resource legacy_verdict
    legacy id network_uri legacy_uri = try_get legacy_uri >>= λ got.
        if is_legacy_ntp_resource got.0
        then lift (legacy_verdict servers id legacy_uri)
        else pure (without_block id network_uri legacy_uri)

    -- What follows the read of the NetworkProtocol resource.
    unfoldable pub on_network : Dict Json → String → Json → Json → Json × Bool → Exec S Exn Verdict
    unfolding get legacy legacy_ntp_uri
    on_network manager manager_uri id network_uri (network, readable) =
        if truthy network_uri && not readable
        then pure (
            skips (record {
              manager = id;
              target = network_uri;
              reason = "NetworkProtocol resource is not readable";
            }))
        else lift (as_dict network) >>= λ fields.
            if is_dict (get fields "NTP")
            then pure (
                planned
                  (record { manager = id; target = network_uri; payload = ntp_payload servers }))
            else legacy id network_uri (legacy_ntp_uri manager manager_uri)

    unfoldable pub manager_name : Dict Json → String → Json
    unfolding get split last_of
    manager_name manager manager_uri =
        if truthy (get manager "Id")
        then get manager "Id"
        else str (last_of "" (split b'/' manager_uri))

    -- One pass of the loop over the managers.
    unfoldable pub verdict_of : Option String → String → Exec S Exn Verdict
    unfolding try_get link manager_name on_network
    verdict_of manager_id manager_uri = try_get (str manager_uri) >>= λ body.
        lift (as_dict body.0) >>= λ manager.
        if is_other manager_id (manager_name manager manager_uri)
        then pure passed_over
        else try_get (link manager "NetworkProtocol")
          >>= on_network manager manager_uri (manager_name manager manager_uri)
              (link manager "NetworkProtocol")

    abbrev pub add_verdict : Verdict → List PlanItem × List Skipped → List PlanItem × List Skipped
    add_verdict passed_over lists = lists
    add_verdict (planned item) (plan, skipped) = (item ∷ plan, skipped)
    add_verdict (skips s) (plan, skipped) = (plan, s ∷ skipped)

    -- The loop over the managers: the plan and the skipped ones, in their order.
    unfoldable pub verdicts :
        Option String → List String → Exec S Exn (List PlanItem × List Skipped)
    unfolding verdict_of
    verdicts manager_id [] = pure ([], [])
    verdicts manager_id (uri ∷ uris) = verdict_of manager_id uri >>= λ v.
        verdicts manager_id uris >>= λ lists. pure (add_verdict v lists)

    abbrev is_over_limit : List Skipped → Bool
    is_over_limit [] = false
    is_over_limit (s ∷ ss) = (s.reason == limit_reason) || is_over_limit ss

    -- `if manager_id`
    abbrev named : Option String → Bool
    named none = false
    named (some t) = not (is_empty t)

    abbrev manager_text : Option String → String
    manager_text none = ""
    manager_text (some t) = repr t

    -- An empty plan is an error.
    unfoldable pub require_plan :
        Option String → List PlanItem × List Skipped → Result Exn (List PlanItem × List Skipped)
    require_plan manager_id ([], skipped) =
        if named manager_id
        then raised (
            invalid_argument
              ("Manager " <> (manager_text manager_id <> " has no NTP-capable resource")))
        else if is_over_limit skipped
        then raised (invalid_argument limit_reason)
        else raised (invalid_argument "no NTP-capable Manager resources found")
    require_plan manager_id (item ∷ plan, skipped) = ok (item ∷ plan, skipped)

    unfoldable pub ntp_plan :
        Exec S Exn (List String) → Option String → Exec S Exn (List PlanItem × List Skipped)
    unfolding verdicts require_plan
    ntp_plan discover manager_id = discover >>= λ uris.
        verdicts manager_id uris >>= λ lists. lift (require_plan manager_id lists)
