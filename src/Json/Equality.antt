-- ===== src/Json/Equality.antt =====
-- Python's `==` on such values: a `bool` equals the `int` of its value, and dicts are compared without their order.
use redfish_ctl.Common.{
  ℕ, String, Bool, true, false, ◌&&◌, Option, none, some, List, [], ◌∷◌, ◌==◌, ◌=?◌, length, any,
}
use redfish_ctl.Json.{
  Json, Items, Fields, null, bool, int, neg, str, list, dict, nil, cons, end, field, elems, props,
}
use redfish_ctl.Common.Dict

abbrev as_int : Bool → ℕ
as_int true = 1
as_int false = 0

-- What is left of a comparison once one side is taken apart.
abbrev is_null : Json → Bool
is_null null = true
is_null _ = false

abbrev is_int : ℕ → Json → Bool
is_int n (bool b) = n =? as_int b
is_int n (int m) = n =? m
is_int n _ = false

abbrev is_neg : ℕ → Json → Bool
is_neg n (neg m) = n =? m
is_neg n _ = false

abbrev is_str : String → Json → Bool
is_str s (str t) = s == t
is_str s _ = false

abbrev on_list : (List Json → Bool) → Json → Bool
on_list p (list vs) = p (elems vs)
on_list p _ = false

abbrev on_dict : (Dict.Dict Json → Bool) → Json → Bool
on_dict p (dict fs) = p (props fs)
on_dict p _ = false

abbrev on_cons : (Json → Bool) → (List Json → Bool) → List Json → Bool
on_cons p q [] = false
on_cons p q (v ∷ vs) = p v && q vs

abbrev is_nil : List Json → Bool
is_nil [] = true
is_nil (v ∷ vs) = false

abbrev on_some : (Json → Bool) → Option Json → Bool
on_some p none = false
on_some p (some v) = p v

unfoldable mutual
  pub equal : Json → Json → Bool
  equal null w = is_null w
  equal (bool b) w = is_int (as_int b) w
  equal (int n) w = is_int n w
  equal (neg n) w = is_neg n w
  equal (str s) w = is_str s w
  equal (list vs) w = on_list (equal_items vs) w
  equal (dict fs) w = on_dict (λ d. (length (props fs) =? length d) && within fs d) w

  equal_items : Items → List Json → Bool
  equal_items nil ws = is_nil ws
  equal_items (cons v vs) ws = on_cons (equal v) (equal_items vs) ws

  within : Fields → Dict.Dict Json → Bool
  within end d = true
  within (field k v fs) d = on_some (equal v) (Dict.lookup k d) && within fs d

-- v in values
unfoldable pub member : Json → List Json → Bool
unfolding equal
member v ws = any (equal v) ws
