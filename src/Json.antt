-- ===== src/Json.antt =====
-- The values that a JSON document becomes in Python: `None`, `bool`, `int`, `str`, `list`, `dict`.
-- Numbers with a fraction are left out. A list and a dict have types of their own, with functions to `List`.
pub mod Equality
use redfish_ctl.Common.{
  ℕ, zero, suc, String, ◌<>◌, Bool, true, false, not, Option, none, some, List, [], ◌∷◌, ◌=?◌, map,
}
use redfish_ctl.Common.Dict.{Dict}
use redfish_ctl.Common.Dict
use redfish_ctl.Common.Text.{is_empty, show}

mutual
  pub data Json : Type 0 where
    null : Json
    bool : Bool → Json
    int : ℕ → Json
    neg : ℕ → Json  -- -(n + 1)
    str : String → Json
    list : Items → Json
    dict : Fields → Json

  pub data Items : Type 0 where
    nil : Items
    cons : Json → Items → Items

  pub data Fields : Type 0 where
    end : Fields
    field : String → Json → Fields → Fields

abbrev pub elems : Items → List Json
elems nil = []
elems (cons v vs) = v ∷ elems vs

abbrev pub items : List Json → Items
items [] = nil
items (v ∷ vs) = cons v (items vs)

abbrev pub props : Fields → Dict Json
props end = []
props (field k v fs) = (k, v) ∷ props fs

abbrev pub fields : Dict Json → Fields
fields [] = end
fields ((k, v) ∷ d) = field k v (fields d)

-- A dict display, `{…}`.
abbrev pub object : Dict Json → Json
object d = dict (fields d)

-- A list display of texts.
abbrev pub texts : List String → Json
texts ts = list (items (map str ts))

-- None for a missing text
abbrev pub optional : Option String → Json
optional none = null
optional (some t) = str t

-- bool(v)
abbrev pub truthy : Json → Bool
truthy null = false
truthy (bool b) = b
truthy (int n) = not (n =? 0)
truthy (neg n) = true
truthy (str s) = not (is_empty s)
truthy (list nil) = false
truthy (list (cons v vs)) = true
truthy (dict end) = false
truthy (dict (field k v fs)) = true

-- A value that is a dict, and an empty dict in place of any other.
abbrev pub mapping : Json → Dict Json
mapping (dict fs) = props fs
mapping _ = []

-- `None` in place of a missing value.
abbrev pub or_null : Option Json → Json
or_null none = null
or_null (some v) = v

-- d.get(k)
unfoldable pub get : Dict Json → String → Json
unfolding Dict.lookup
get d k = or_null (Dict.lookup k d)

-- str(v), where `repr` is Python's for a text, which quotes and escapes.
module _ (repr : String → String) where
  mutual
    unfolding show

    repr_value : Json → String
    repr_value null = "None"
    repr_value (bool true) = "True"
    repr_value (bool false) = "False"
    repr_value (int n) = show n
    repr_value (neg n) = "-" <> show (suc n)
    repr_value (str s) = repr s
    repr_value (list vs) = "[" <> (repr_items vs <> "]")
    repr_value (dict fs) = "{" <> (repr_fields fs <> "}")

    repr_items : Items → String
    repr_items nil = ""
    repr_items (cons v nil) = repr_value v
    repr_items (cons v (cons w vs)) = repr_value v <> (", " <> repr_items (cons w vs))

    repr_fields : Fields → String
    repr_fields end = ""
    repr_fields (field k v end) = repr k <> (": " <> repr_value v)
    repr_fields (field k v (field j w fs)) =
        repr k <> (": " <> (repr_value v <> (", " <> repr_fields (field j w fs))))

  unfoldable pub to_text : Json → String
  unfolding repr_value
  to_text (str s) = s
  to_text v = repr_value v
