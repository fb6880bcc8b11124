-- ===== src/Query.antt =====
-- redfish_ctl/redfish_query.py: the query string of a read. `quote` is `urllib.parse.quote` with the
-- characters that the module keeps; a text is one that UTF-8 can encode.
pub mod Quoted
pub mod Valid
pub mod Parts
mod Tests
use Prim.Native.Char.{Char, code}
use redfish_ctl.Common.{
  ℕ, ◌+◌, ◌/◌, ◌%◌, String, ◌<>◌, Bool, true, false, not, ◌&&◌, ◌||◌, Option, none, some, List, [],
  ◌∷◌, ◌++◌, any, length, ltb, leb, ◌=?◌, if◌then◌else◌,
}
use redfish_ctl.Common.Effect.{Result, ok, raised, ◌>>=ᴿ◌}
use redfish_ctl.Common.Text.{is_empty, join, digit}
use redfish_ctl.Json.{Json, null, bool, int, neg, to_text}

pub data ValueError : Type 0 where
  value_error : String → ValueError

-- What `select` may be: missing, a text, or a list of names.
pub data Selection : Type 0 where
  unselected : Selection
  comma_text : String → Selection
  names : List String → Selection

-- What `expand` may be: missing, a Boolean, or the text of a mode.
pub data Expansion : Type 0 where
  unexpanded : Expansion
  flag : Bool → Expansion
  mode : String → Expansion

-- `top` and `expand_levels` are any value, since the class tests whether they are whole numbers.
pub record RedfishQuery : Type 0 where
  pub select : Selection
  pub filter : Option String
  pub expand : Expansion
  pub expand_levels : Json
  pub top : Json
  pub only : Bool

among : ℕ → String → Bool
among c String.[] = false
among c (String.◌∷◌ d s) = (c =? code d) || among c s

-- The characters that stay literal: letters, digits, "_.-~", and those of _SAFE.
unfoldable pub is_safe : ℕ → Bool
unfolding among
is_safe c =
    (leb 48 c && leb c 57)
    || ((leb 65 c && leb c 90) || ((leb 97 c && leb c 122) || among c "_.-~()'$*,=:+-"))

abbrev pub hex_digit : ℕ → Char
hex_digit n =
    if ltb n 10
    then digit n
    else if n =? 10
    then "A"
    else if n =? 11
    then "B"
    else if n =? 12
    then "C"
    else if n =? 13
    then "D"
    else if n =? 14
    then "E"
    else "F"

abbrev pub percent : Char
percent = "%"

-- The bytes in front of a text, each as a percent sign and two hexadecimal digits.
unfoldable pub escape : List ℕ → String → String
escape [] s = s
escape (b ∷ bs) s =
    String.◌∷◌ percent
      (String.◌∷◌ (hex_digit (b / 16)) (String.◌∷◌ (hex_digit (b % 16)) (escape bs s)))

-- The UTF-8 encoding of a character.
unfoldable pub utf8 : ℕ → List ℕ
utf8 c =
    if ltb c 128
    then c ∷ []
    else if ltb c 2048
    then (192 + c / 64) ∷ (128 + c % 64) ∷ []
    else if ltb c 65536
    then (224 + c / 4096) ∷ (128 + (c / 64) % 64) ∷ (128 + c % 64) ∷ []
    else (240 + c / 262144) ∷ (128 + (c / 4096) % 64) ∷ (128 + (c / 64) % 64) ∷ (128 + c % 64) ∷ []

-- quote(s, safe=_SAFE)
unfoldable pub quote : String → String
unfolding is_safe escape utf8
quote String.[] = ""
quote (String.◌∷◌ c s) =
    let rest = quote s in
    if is_safe (code c) then String.◌∷◌ c rest else escape (utf8 (code c)) rest

abbrev pub selects : Selection → Bool
selects unselected = false
selects (comma_text t) = not (is_empty t)
selects (names []) = false
selects (names (t ∷ ts)) = true

unfoldable pub select_text : Selection → String
unfolding join
select_text unselected = ""
select_text (comma_text t) = t
select_text (names ts) = join "," ts

abbrev pub filters : Option String → Bool
filters none = false
filters (some t) = not (is_empty t)

abbrev pub filter_text : Option String → String
filter_text none = ""
filter_text (some t) = t

abbrev pub expands : Expansion → Bool
expands unexpanded = false
expands (flag b) = b
expands (mode t) = not (is_empty t)

abbrev pub mode_of : Expansion → String
mode_of (mode t) = t
mode_of _ = "*"

abbrev pub has_value : Json → Bool
has_value null = false
has_value _ = true

-- isinstance(v, int), which holds of a Boolean too
abbrev pub is_int : Json → Bool
is_int (bool b) = true
is_int (int n) = true
is_int (neg n) = true
is_int _ = false

-- v < k, for a whole number v
abbrev pub is_below : ℕ → Json → Bool
is_below k (bool true) = ltb 1 k
is_below k (bool false) = ltb 0 k
is_below k (int n) = ltb n k
is_below k _ = true

-- A value that is set and is not a whole number of at least `k`.
abbrev pub out_of_range : ℕ → Json → Bool
out_of_range k v = has_value v && (not (is_int v) || is_below k v)

abbrev pub added : Bool → String → List String → List String
added true t ts = t ∷ ts
added false t ts = ts

unfoldable pub active_names : RedfishQuery → List String
active_names q = added (selects q.select) "$select" (
    added (filters q.filter) "$filter" (
      added (expands q.expand) "$expand" (added (has_value q.top) "$top" (added q.only "only" []))))

unfoldable pub validate : RedfishQuery → Bool → Result ValueError Unit
unfolding active_names join
validate q one_param_per_uri =
    if out_of_range 0 q.top
    then raised (value_error "$top must be an integer >= 0")
    else if out_of_range 1 q.expand_levels
    then raised (value_error "$expand levels must be an integer >= 1")
    else if one_param_per_uri && ltb 1 (length (active_names q))
    then raised (
        value_error (
          "this service supports only one query parameter per URI; got "
          <> join ", " (active_names q)))
    else ok tt

unfoldable pub rendered : List String → String
unfolding join
rendered [] = ""
rendered (p ∷ ps) = "?" <> join "&" (p ∷ ps)

module _ (repr : String → String) where
  unfoldable pub expansion : Expansion → Json → String
  unfolding to_text
  expansion e levels = "$expand=" <> (mode_of e <> ("($levels=" <> (to_text repr levels <> ")")))

  unfoldable pub pairs : RedfishQuery → List String
  unfolding quote select_text expansion to_text
  pairs q = added (selects q.select) ("$select=" <> quote (select_text q.select)) (
      added (filters q.filter) ("$filter=" <> quote (filter_text q.filter)) (
        added (expands q.expand) (expansion q.expand q.expand_levels)
          (added (has_value q.top) ("$top=" <> to_text repr q.top) (added q.only "only" []))))

  unfoldable pub to_query_string : RedfishQuery → Bool → Result ValueError String
  unfolding validate pairs rendered
  to_query_string q one_param_per_uri =
      validate q one_param_per_uri >>=ᴿ λ _. ok (rendered (pairs q))

  -- RedfishQuery.apply
  unfoldable pub apply : RedfishQuery → String → Bool → Result ValueError String
  unfolding to_query_string
  apply q url one_param_per_uri =
      to_query_string q one_param_per_uri >>=ᴿ λ query. ok (url <> query)
