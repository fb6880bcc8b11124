-- ===== src/Config.antt =====
-- redfish_ctl/config.py: _redacted, env_first, env_flag and named_env.
pub mod Settings
pub mod Identity
pub mod Laws
pub mod Numbers
pub mod Redaction
pub mod Bounds
pub mod Options
mod Tests
use Prim.Native.Char.{code}
use redfish_ctl.Common.{
  ℕ, ◌+◌, ◌-◌, String, ◌<>◌, Bool, true, false, not, ◌&&◌, ◌||◌, Option, none, some, List, [], ◌∷◌,
  ◌==◌, leb, ltb, ◌=?◌, if◌then◌else◌, length, any, map, contains,
}
use redfish_ctl.Common.Dict.{Dict, lookup}
use redfish_ctl.Common.Effect.{Exec, Result, ok, raised, pure, raise, ◌>>=◌}
use redfish_ctl.Common.Text.{strip, join, first_of}

-- `os.environ`
abbrev pub Env : Type 0
Env = Dict String

-- `conflict` is ConfigurationConflict, `invalid_literal t` the ValueError of `int(t)`, `runtime` a
-- RuntimeError.
pub data ConfigError : Type 0 where
  conflict : String → ConfigError
  invalid_literal : String → ConfigError
  runtime : String → ConfigError

-- The state is the list of the texts given to `warnings.warn`.
abbrev pub Loading : Type 0 → Type 0
Loading A = Exec (List String) ConfigError A

-- An ASCII small letter made a capital; ſ, the sign for kelvin, ı and İ match s, k and i, too.
abbrev upper : ℕ → ℕ
upper c =
    if leb 97 c && leb c 122
    then c - 32
    else if c =? 383
    then 83
    else if c =? 8490
    then 75
    else if (c =? 304) || (c =? 305)
    then 73
    else c

uppers : String → List ℕ
uppers String.[] = []
uppers (String.◌∷◌ c s) = upper (code c) ∷ uppers s

unfoldable pub begins : List ℕ → List ℕ → Bool
begins [] text = true
begins (p ∷ ps) [] = false
begins (p ∷ ps) (c ∷ text) = (p =? c) && begins ps text

unfoldable pub holds_word : List ℕ → List ℕ → Bool
unfolding begins
holds_word word [] = begins word []
holds_word word (c ∷ text) = begins word (c ∷ text) || holds_word word text

abbrev secret_words : List String
secret_words = "PASSWORD" ∷ "TOKEN" ∷ "SECRET" ∷ "KEY" ∷ "CREDENTIAL" ∷ []

-- _SECRET_HINT.search(name)
unfoldable pub is_secret : String → Bool
unfolding uppers holds_word
is_secret name = any (λ word. holds_word (uppers word) (uppers name)) secret_words

unfoldable pub redacted : String → String → String
redacted name value = if is_secret name then name <> "=<redacted>" else name <> ("=" <> value)

abbrev with_value : String → Option String → Dict String → Dict String
with_value n none rest = rest
with_value n (some v) rest = (n, v) ∷ rest

-- [(n, os.environ[n]) for n in names if n in os.environ]
unfoldable pub present : Env → List String → Dict String
unfolding lookup
present env [] = []
present env (n ∷ names) = with_value n (lookup n env) (present env names)

-- A set of texts, as a list.
abbrev pub unique : List String → List String
unique [] = []
unique (t ∷ ts) = let rest = unique ts in if contains t rest then rest else t ∷ rest

abbrev pub stripped : Dict String → List String
stripped [] = []
stripped ((n, v) ∷ d) = strip v ∷ stripped d

abbrev pub conflict_lines : Dict String → List String
conflict_lines [] = []
conflict_lines ((n, v) ∷ d) = ("  " <> redacted n v) ∷ conflict_lines d

unfoldable pub conflict_text : List String → Dict String → String
unfolding join
conflict_text names found =
    "Configuration conflict:\n"
    <> (join "\n" (conflict_lines found) <> ("\n\nUse only " <> (first_of "" names <> ".")))

abbrev pub alias_warning : String → String → String
alias_warning winner canonical =
    winner
    <> (" is a deprecated alias for " <> (canonical <> ("; set " <> (canonical <> " instead"))))

-- What env_first does with the names that are set.
unfoldable pub settle : List String → Option String → Bool → Dict String → Loading (Option String)
settle names default strict [] warned = (ok default, warned)
settle names default strict ((winner, value) ∷ others) warned =
    if ltb 1 (length (unique (stripped ((winner, value) ∷ others))))
    then (if strict
        then (raised (conflict (conflict_text names ((winner, value) ∷ others))), warned)
        else (ok (some value), warned))
    else if winner == first_of "" names
    then (ok (some value), warned)
    else (ok (some value), alias_warning winner (first_of "" names) ∷ warned)

unfoldable pub env_first : Env → List String → Option String → Bool → Loading (Option String)
env_first env names default strict = settle names default strict (present env names)

-- os.getenv(name, default)
abbrev pub getenv : Env → String → String → String
getenv env name default = or_default (lookup name env)
  where
    or_default : Option String → String
    or_default none = default
    or_default (some v) = v

unfoldable pub lowers : String → List ℕ
lowers String.[] = []
lowers (String.◌∷◌ c s) =
    (if leb 65 (code c) && leb (code c) 90 then code c + 32 else code c) ∷ lowers s

same_codes : List ℕ → List ℕ → Bool
same_codes [] [] = true
same_codes (a ∷ cs) (b ∷ ds) = (a =? b) && same_codes cs ds
same_codes _ _ = false

-- text.lower() == word, for a small ASCII word; no letter outside ASCII has one of its letters as
-- its lower case.
unfoldable pub lower_is : String → String → Bool
unfolding lowers same_codes
lower_is text word = same_codes (lowers text) (lowers word)

-- t.strip().lower() in {"1", "true", "yes", "on"}
unfoldable pub is_truthy_flag : String → Bool
unfolding lower_is
is_truthy_flag t = any (λ word. lower_is (strip t) word) ("1" ∷ "true" ∷ "yes" ∷ "on" ∷ [])

unfoldable pub env_flag : Env → String → Bool
env_flag env name = is_truthy_flag (getenv env name "")

unfoldable pub named_env : Env → String → Option String → Option String
named_env env name default = or_default (lookup name env)
  where
    or_default : Option String → Option String
    or_default none = default
    or_default (some v) = some v
