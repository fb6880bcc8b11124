-- ===== src/Ntp.antt =====
-- redfish_ctl/manager/cmd_ntp_set.py: the NTP servers given to ntp-set.
pub mod Plan
pub mod Apply
pub mod Limits
pub mod Preview
pub mod Covers
pub mod Confirmed
mod Tests
use Prim.Native.Char.{code}
use Prim.Native.String.{count}
use redfish_ctl.Common.{
  ℕ, zero, suc, String, ◌<>◌, Bool, true, false, not, ◌&&◌, ◌||◌, Option, none, some, List, [], ◌∷◌,
  ◌++◌, leb, ltb, ◌=?◌, if◌then◌else◌, length, all,
}
use redfish_ctl.Common.Effect.{Result, ok, raised, ◌>>=ᴿ◌}
use redfish_ctl.Common.Text.{is_empty, is_space, split, strip, occurs}
use redfish_ctl.Http.{Exn, invalid_argument}

-- The argument `servers`: None, one text, or a list of texts.
pub data Servers : Type 0 where
  missing : Servers
  one : String → Servers
  many : List String → Servers

abbrev is_alphanumeric : ℕ → Bool
is_alphanumeric c = (leb 48 c && leb c 57) || ((leb 65 c && leb c 90) || (leb 97 c && leb c 122))

-- What may follow the first character of a label: letters, digits and dashes, no dash at the end.
unfoldable pub label_rest : Bool → String → Bool
label_rest ends_well String.[] = ends_well
label_rest ends_well (String.◌∷◌ c s) =
    (is_alphanumeric (code c) || (code c =? 45)) && label_rest (is_alphanumeric (code c)) s

-- _HOST_LABEL.fullmatch(label)
unfoldable pub is_host_label : String → Bool
unfolding label_rest
is_host_label String.[] = false
is_host_label (String.◌∷◌ c s) =
    is_alphanumeric (code c) && (label_rest true s && leb (count (String.◌∷◌ c s)) 63)

unfoldable pub any_space : String → Bool
unfolding is_space
any_space String.[] = false
any_space (String.◌∷◌ c s) = is_space (code c) || any_space s

-- server[:-1] if server.endswith(".") else server
abbrev cut : ℕ → String → String → String
cut c rest cut_rest = if is_empty rest && (c =? 46) then "" else cut_rest

unfoldable pub without_dot : String → String
without_dot String.[] = ""
without_dot (String.◌∷◌ c s) = cut (code c) s (String.◌∷◌ c (without_dot s))

module _ (repr : String → String) (is_ip_address : String → Bool) where
  abbrev is_hostname : String → Bool
  unfolding split is_host_label
  is_hostname hostname =
      if ltb 253 (count hostname) || is_empty hostname
      then false
      else all is_host_label (split b'.' hostname)

  unfoldable pub is_plausible_ntp_server : String → Bool
  unfolding any_space occurs without_dot is_hostname
  is_plausible_ntp_server server =
      if is_empty server || any_space server
      then false
      else if occurs "://" server || occurs "/" server
      then false
      else if is_ip_address server
      then true
      else is_hostname (without_dot server)

  abbrev pub nonempty_stripped : List String → List String
  unfolding strip
  nonempty_stripped [] = []
  nonempty_stripped (v ∷ vs) =
      let rest = nonempty_stripped vs in if is_empty (strip v) then rest else strip v ∷ rest

  unfoldable pub split_servers : List String → List String
  unfolding split nonempty_stripped
  split_servers [] = []
  split_servers (raw ∷ raws) = nonempty_stripped (split b',' raw) ++ split_servers raws

  -- The first server that is not plausible is refused.
  unfoldable pub all_plausible : List String → Result Exn Unit
  unfolding is_plausible_ntp_server
  all_plausible [] = ok tt
  all_plausible (server ∷ servers) =
      let rest = all_plausible servers in
      if is_plausible_ntp_server server
      then rest
      else raised (invalid_argument ("invalid NTP server: " <> repr server))

  unfoldable pub checked_servers : List String → Result Exn (List String)
  unfolding all_plausible
  checked_servers [] = raised (invalid_argument "at least one NTP server is required")
  checked_servers (server ∷ servers) =
      if ltb 4 (length (server ∷ servers))
      then raised (invalid_argument "ManagerNetworkProtocol NTP supports at most 4 servers")
      else all_plausible (server ∷ servers) >>=ᴿ λ _. ok (server ∷ servers)

  abbrev pub given : Servers → Bool
  given missing = false
  given (one t) = not (is_empty t)
  given (many []) = false
  given (many (t ∷ ts)) = true

  abbrev of_servers : Servers → Result Exn (List String)
  unfolding split_servers checked_servers
  of_servers missing = raised (invalid_argument "at least one NTP server is required")
  of_servers (one t) = checked_servers (split_servers (t ∷ []))
  of_servers (many ts) = checked_servers (split_servers ts)

  unfoldable pub normalize_ntp_servers : Servers → Bool → Result Exn (List String)
  unfolding of_servers
  normalize_ntp_servers servers clear =
      if clear
      then (if given servers
          then raised (invalid_argument "--clear cannot be used with --server")
          else ok [])
      else of_servers servers
