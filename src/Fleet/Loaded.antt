-- ===== src/Fleet/Loaded.antt =====
-- redfish_ctl/fleet/cmd_fleet.py: what load_inventory makes of the rows of an inventory.
use redfish_ctl.Common.{
  ℕ, zero, suc, ◌+◌, String, ◌≡◌, refl, true, false, Option, none, some, List, [], ◌∷◌, arith,
  get_elem?, Bool-cases, inl, inr,
}
use redfish_ctl.Common.Dict.{Dict}
use redfish_ctl.Common.Effect.{Result, ok, raised, ◌>>=ᴿ◌}
use redfish_ctl.Common.Int.{ℤ, pos, int_of_text}
use redfish_ctl.Config.{Env}
use redfish_ctl.Json.{Json, null, bool, int, neg, str, list, dict, truthy, object, get}
use redfish_ctl.Fleet.{FleetNode}
use redfish_ctl.Fleet.Inventory.{
  InventoryError, missing_address, invalid_literal, not_a_number, not_iterable, or_value, parsed,
  as_int, inventory_nodes, address_of, node_of, load_rows, load_inventory,
}

module _ (repr : String → String) (env : Env) where
  -- An entry for each row, in order, made from it; each row has an address.
  abbrev pub Loaded : List (Dict Json) → List FleetNode → Type 0
  Loaded [] [] = Unit
  Loaded (raw ∷ rows) (node ∷ nodes) =
      (truthy (address_of repr env raw) ≡ true)
      × (node_of repr env raw ≡ ok node)
      × Loaded rows nodes
  Loaded _ _ = ⊥

  -- The row that has the index, counted from the one given for the first row, has no address.
  abbrev pub Lacking : ℕ → List (Dict Json) → ℕ → Type 0
  Lacking index rows i =
      (k : ℕ) × (i ≡ index + k)
      × ((raw : Dict Json) × (get_elem? rows k ≡ some raw)
          × (truthy (address_of repr env raw) ≡ false))

  abbrev pub Explained : ℕ → List (Dict Json) → Result InventoryError (List FleetNode) → Type 0
  Explained index rows (ok nodes) = Loaded rows nodes
  Explained index rows (raised (missing_address i)) = Lacking index rows i
  Explained index rows (raised (invalid_literal t)) = Unit
  Explained index rows (raised not_a_number) = Unit
  Explained index rows (raised not_iterable) = Unit

  -- An error of one entry is one of its port.
  abbrev IsOfPort : {A : Type 0} → Result InventoryError A → Type 0
  IsOfPort (raised (missing_address i)) = ⊥
  IsOfPort _ = Unit

  parsed-IsOfPort : (t : String) (n : Option ℤ) → IsOfPort (parsed t n)
  parsed-IsOfPort t none = tt
  parsed-IsOfPort t (some n) = tt

  as_int-IsOfPort : (v : Json) (default : ℤ) → IsOfPort (as_int v default)
  unfolding as_int
  as_int-IsOfPort null default = tt
  as_int-IsOfPort (bool true) default = tt
  as_int-IsOfPort (bool false) default = tt
  as_int-IsOfPort (int n) default = tt
  as_int-IsOfPort (neg n) default = tt
  as_int-IsOfPort (str t) default = parsed-IsOfPort t (int_of_text t)
  as_int-IsOfPort (list vs) default = tt
  as_int-IsOfPort (dict fs) default = tt

  then-IsOfPort :
      {A : Type 0} (r : Result InventoryError ℤ) (f : ℤ → A)
      → IsOfPort r
      → IsOfPort (r >>=ᴿ λ port. ok (f port))
  then-IsOfPort (ok n) f h = tt
  then-IsOfPort (raised (missing_address i)) f h = h
  then-IsOfPort (raised (invalid_literal t)) f h = tt
  then-IsOfPort (raised not_a_number) f h = tt
  then-IsOfPort (raised not_iterable) f h = tt

  node_of-IsOfPort : (raw : Dict Json) → IsOfPort (node_of repr env raw)
  unfolding node_of
  node_of-IsOfPort raw =
      then-IsOfPort (as_int (get raw "port") (pos 443)) _
        (as_int-IsOfPort (get raw "port") (pos 443))

  Explained-rest :
      (index : ℕ) (raw : Dict Json) (rows : List (Dict Json))
      (node : Result InventoryError FleetNode) (rest : Result InventoryError (List FleetNode))
      → node_of repr env raw ≡ node
      → IsOfPort node
      → truthy (address_of repr env raw) ≡ true
      → Explained (suc index) rows rest
      → Explained index (raw ∷ rows) (node >>=ᴿ λ n. rest >>=ᴿ λ nodes. ok (n ∷ nodes))
  Explained-rest index raw rows (ok n) (ok nodes) e port address h = (address, e, h)
  Explained-rest index raw rows (ok n) (raised (missing_address i)) e port address
        (k, at_k, found) =
      (suc k, omega arith, found)
  Explained-rest index raw rows (ok n) (raised (invalid_literal t)) e port address h = tt
  Explained-rest index raw rows (ok n) (raised not_a_number) e port address h = tt
  Explained-rest index raw rows (ok n) (raised not_iterable) e port address h = tt
  Explained-rest index raw rows (raised (missing_address i)) rest e port address h = absurd port
  Explained-rest index raw rows (raised (invalid_literal t)) rest e port address h = tt
  Explained-rest index raw rows (raised not_a_number) rest e port address h = tt
  Explained-rest index raw rows (raised not_iterable) rest e port address h = tt

  load_rows-Explained :
      (index : ℕ) (rows : List (Dict Json)) → Explained index rows (load_rows repr env index rows)
  unfolding load_rows
  load_rows-Explained index [] = tt
  load_rows-Explained index (raw ∷ rows) = elim (Bool-cases (truthy (address_of repr env raw))) [
    | inl address ↦ rw address (
        Explained-rest index raw rows (node_of repr env raw) (load_rows repr env (suc index) rows)
          refl (node_of-IsOfPort raw) address (load_rows-Explained (suc index) rows))
    | inr lacking ↦ rw lacking (zero, omega arith, (raw, refl, lacking))
  ]

  -- Where the rows of an inventory can be read, load_inventory gives an entry for each of them, in
  -- order, made from it alone, and each row has an address; or it raises, and if the error is that of
  -- a missing address, the row that it numbers, counted from 1, has none.
  pub load_inventory_outcome :
      (loaded : Json) (rows : List (Dict Json))
      → inventory_nodes (or_value loaded (object [])) ≡ ok rows
      → Explained 1 rows (load_inventory repr env loaded)
  unfolding load_inventory
  load_inventory_outcome loaded rows e = rw e (load_rows-Explained 1 rows)
