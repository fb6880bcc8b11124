-- ===== src/Cache/Flight.antt =====
-- The keys in flight, and how one step of a thread changes them and the values.
use redfish_ctl.Common.{
  ℕ, ◌+◌, ◌≤◌, Option, String, ◌≡◌, ◌⊎◌, refl, sym, ap, ◌∙◌, Bool, true, false, not, ◌&&◌, none,
  some, List, [], ◌∷◌, ◌==◌, arith, eq_iff, eq_refl, if◌then◌else◌, Option-cases, Bool-cases, inl,
  inr,
}
use redfish_ctl.Common.Dict.{Dict, lookup, insert, lookup-insert}
use redfish_ctl.Common.Effect.{Result, ok, raised}
use redfish_ctl.Cache.{
  in_flight, discard, Shared, Point, trying, waiting, loading, returned, failed, copied, given,
  attempt, finish, notifies, Local, tries, loads,
}

abbrev pub flag : Bool → ℕ
flag b = if b then 1 else 0

pub in_flight-discard :
    (j k : String) (keys : List String)
    → in_flight j (discard k keys) ≡ (not (k == j) && in_flight j keys)
in_flight-discard j k [] = ground arith
in_flight-discard j k (i ∷ keys) =
    ground (arith, in_flight-discard j k keys, eq_iff i k, eq_iff i j, eq_iff k j)

in_flight_same :
    (j k : String) (keys : List String) → (k == j) ≡ true → in_flight j keys ≡ in_flight k keys
in_flight_same j k keys same = ap (λ i. in_flight i keys) (sym ((eq_iff k j).0 same))

lookup_same : {V : Type 0} (j k : String) (d : Dict V) → (k == j) ≡ true → lookup j d ≡ lookup k d
lookup_same j k d same = ap (λ i. lookup i d) (sym ((eq_iff k j).0 same))

module _ {V E : Type 0} where
  -- A call's share in the number of loaders of a key.
  abbrev pub is_loading : Point V E → Bool
  is_loading loading = true
  is_loading p = false

  abbrev pub share : String → String → Point V E → ℕ
  share j k p = flag ((k == j) && is_loading p)

  -- A call that ended with a value ended with the one that the cache holds.
  abbrev pub Agrees : Shared V E → String → Point V E → Type 0
  Agrees c k (returned v) = lookup k c.values ≡ some v
  Agrees c k p = Unit

  -- The shared state with one more key in flight.
  abbrev pub departed : String → Shared V E → Shared V E
  departed k c = record { values = c.values; inflight = k ∷ c.inflight }

module _ {V E : Type 0} (copy_error : V → Option E) where
  pub given_out : (v : V) → is_loading (given copy_error v) ≡ false
  given_out v = by_copy (copy_error v)
    where
      by_copy : (o : Option E) → is_loading (copied copy_error o v) ≡ false
      by_copy none = refl
      by_copy (some e) = refl

  given-Agrees :
      (c : Shared V E) (k : String) (v : V)
      → lookup k c.values ≡ some v
      → Agrees c k (given copy_error v)
  given-Agrees c k v held = by_copy (copy_error v)
    where
      by_copy : (o : Option E) → Agrees c k (copied copy_error o v)
      by_copy none = held
      by_copy (some e) = tt

  pub attempt-cases :
      (k : String) (c : Shared V E)
      → ((v : V) × (lookup k c.values ≡ some v)
          × (attempt copy_error k c ≡ (given copy_error v, c)))
        ⊎ ((lookup k c.values ≡ none)
            × (((in_flight k c.inflight ≡ true) × (attempt copy_error k c ≡ (waiting, c)))
                ⊎ ((in_flight k c.inflight ≡ false)
                    × (attempt copy_error k c ≡ (loading, departed k c)))))
  unfolding attempt
  attempt-cases k c = elim (Option-cases (lookup k c.values)) [
    | inl missing ↦ elim (Bool-cases (in_flight k c.inflight)) [
      | inl busy ↦ inr (missing, inl (busy, rw (missing, busy) refl))
      | inr free ↦ inr (missing, inr (free, rw (missing, free) refl))
    ]
    | inr (v, found) ↦ inl (v, found, rw found refl)
  ]

  -- What follows a loader: the key is stored, or given up with an error, or, where the copy raises, left.
  pub finish-cases :
      (k : String) (r : Result E V) (c : Shared V E)
      → ((v : V) × (notifies copy_error r ≡ true)
          × (finish copy_error k r c ≡ (
            returned v,
            record { values = insert k v c.values; inflight = discard k c.inflight },
          )))
        ⊎ (((e : E) × (notifies copy_error r ≡ true)
              × (finish copy_error k r c
                  ≡ (failed e, record { values = c.values; inflight = discard k c.inflight })))
            ⊎ ((e : E) × (v : V) × (notifies copy_error r ≡ false)
                × (copy_error v ≡ some e)
                × (finish copy_error k r c ≡ (failed e, c))))
  unfolding finish
  finish-cases k (raised e) c = inr (inl (e, refl, refl))
  finish-cases k (ok v) c = elim (Option-cases (copy_error v)) [
    | inl fine ↦ inl (
      v,
      rw fine refl,
      rw fine (
          ap
            (λ o. (
              copied copy_error o v,
              record { values = insert k v c.values; inflight = discard k c.inflight },
            ))
            fine),
    )
    | inr (e, wrong) ↦ inr (inr (e, v, rw wrong refl, wrong, rw wrong refl))
  ]

  pub Local-single :
      (k j : String) (c : Shared V E) (p : Point V E) (q : Point V E × Shared V E) (b : Bool)
      (n : ℕ)
      → Local copy_error k c p q b
      → n + share j k p ≤ flag (in_flight j c.inflight)
      → n + share j k q.0 ≤ flag (in_flight j q.1.inflight)
  Local-single k j c trying q b n tries h = elim (attempt-cases k c) [
    | inl (v, found, e) ↦ rw e (ground (arith, given_out v))
    | inr (missing, inl (busy, e)) ↦ rw e (ground arith)
    | inr (missing, inr (free, e)) ↦ rw e (ground (arith, in_flight_same j k c.inflight))
  ]
  Local-single k j c waiting q b n never h = elim never [ ]
  Local-single k j c (returned _) q b n never h = elim never [ ]
  Local-single k j c (failed _) q b n never h = elim never [ ]
  Local-single k j c loading q b n (loads r) h = elim (finish-cases k r c) [
    | inl (v, told, e) ↦ rw e (ground (arith, in_flight-discard j k c.inflight))
    | inr (inl (x, told, e)) ↦ rw e (ground (arith, in_flight-discard j k c.inflight))
    | inr (inr (x, v, untold, wrong, e)) ↦ rw e (ground arith)
  ]

  pub Local-unfetched :
      (k j : String) (c : Shared V E) (p : Point V E) (q : Point V E × Shared V E) (b : Bool)
      → Local copy_error k c p q b
      → (in_flight j c.inflight ≡ true → lookup j c.values ≡ none)
      → in_flight j q.1.inflight ≡ true
      → lookup j q.1.values ≡ none
  Local-unfetched k j c trying q b tries h flying = elim (attempt-cases k c) [
    | inl (v, found, e) ↦ rw e (h (rw e at flying))
    | inr (missing, inl (busy, e)) ↦ rw e (h (rw e at flying))
    | inr (missing, inr (free, e)) ↦ elim (Bool-cases (k == j)) [
      | inl same ↦ rw e (lookup_same j k c.values same ∙ missing)
      | inr other ↦ rw e (h (rw (e, other) at flying))
    ]
  ]
  Local-unfetched k j c waiting q b never h flying = elim never [ ]
  Local-unfetched k j c (returned _) q b never h flying = elim never [ ]
  Local-unfetched k j c (failed _) q b never h flying = elim never [ ]
  Local-unfetched k j c loading q b (loads r) h flying = elim (finish-cases k r c) [
    | inl (v, told, e) ↦
        let flies = rw e at flying in
        rw e
          (ground (arith, in_flight-discard j k c.inflight, lookup-insert k j v c.values, h, flies))
    | inr (inl (x, told, e)) ↦
        let flies = rw e at flying in
        rw e (ground (arith, in_flight-discard j k c.inflight, h, flies))
    | inr (inr (x, v, untold, wrong, e)) ↦ rw e (h (rw e at flying))
  ]

  pub Local-Agrees :
      (k : String) (c : Shared V E) (p : Point V E) (q : Point V E × Shared V E) (b : Bool)
      → Local copy_error k c p q b
      → Agrees q.1 k q.0
  Local-Agrees k c trying q b tries = elim (attempt-cases k c) [
    | inl (v, found, e) ↦ rw e (given-Agrees c k v found)
    | inr (missing, inl (busy, e)) ↦ rw e tt
    | inr (missing, inr (free, e)) ↦ rw e tt
  ]
  Local-Agrees k c waiting q b never = elim never [ ]
  Local-Agrees k c (returned _) q b never = elim never [ ]
  Local-Agrees k c (failed _) q b never = elim never [ ]
  Local-Agrees k c loading q b (loads r) = elim (finish-cases k r c) [
    | inl (v, told, e) ↦ rw e (lookup-insert k k v c.values ∙ rw (eq_refl k) refl)
    | inr (inl (x, told, e)) ↦ rw e tt
    | inr (inr (x, v, untold, wrong, e)) ↦ rw e tt
  ]

  pub Local-keeps :
      (k j : String) (c : Shared V E) (p : Point V E) (q : Point V E × Shared V E) (b : Bool)
      (w : V)
      → Local copy_error k c p q b
      → (is_loading p ≡ true → lookup k c.values ≡ none)
      → lookup j c.values ≡ some w
      → lookup j q.1.values ≡ some w
  Local-keeps k j c trying q b w tries h held = elim (attempt-cases k c) [
    | inl (v, found, e) ↦ rw e held
    | inr (missing, inl (busy, e)) ↦ rw e held
    | inr (missing, inr (free, e)) ↦ rw e held
  ]
  Local-keeps k j c waiting q b w never h held = elim never [ ]
  Local-keeps k j c (returned _) q b w never h held = elim never [ ]
  Local-keeps k j c (failed _) q b w never h held = elim never [ ]
  Local-keeps k j c loading q b w (loads r) h held = elim (finish-cases k r c) [
    | inl (v, told, e) ↦
        let missing = h refl in
        rw e (ground (arith, lookup-insert k j v c.values, lookup_same j k c.values, missing))
    | inr (inl (x, told, e)) ↦ rw e held
    | inr (inr (x, v, untold, wrong, e)) ↦ rw e held
  ]
