-- ===== src/Cache/Invariant.antt =====
-- An invariant of the threads of the response cache.
use redfish_ctl.Common.{
  ℕ, zero, suc, ◌+◌, ◌≤◌, String, ◌≡◌, ◌≢◌, refl, Option, Bool, true, false, none, some, List, [],
  ◌∷◌, ◌++◌, arith, eq_refl, All, All-map, All-append, All-split, get_elem?,
}
use mathlib.Core.Path.{subst}
use redfish_ctl.Common.Dict.{lookup}
use redfish_ctl.Cache.{
  in_flight, Shared, Point, trying, waiting, loading, returned, failed, Thread, woken, awake, Local,
  Step, moves, Run, done, further,
}
use redfish_ctl.Cache.Flight.{
  flag, is_loading, Agrees, share, Local-single, Local-unfetched, Local-Agrees, Local-keeps,
}

module _ {V E : Type 0} where
  -- How many calls are in their loader for a key.
  abbrev pub loaders : String → List (Thread V E) → ℕ
  loaders j [] = 0
  loaders j (t ∷ ts) = share j t.key t.point + loaders j ts

  pub loaders-append :
      (j : String) (xs ys : List (Thread V E)) → loaders j (xs ++ ys) ≡ loaders j xs + loaders j ys
  loaders-append j [] ys = omega arith
  loaders-append j (x ∷ xs) ys = omega (arith, loaders-append j xs ys)

  abbrev Settled : Shared V E → Thread V E → Type 0
  Settled c t = Agrees c t.key t.point

  pub record IsSingleFlight (s : List (Thread V E) × Shared V E) : Type 0 where
    pub single : (j : String) → loaders j s.0 ≤ flag (in_flight j s.1.inflight)
    unfetched : (j : String) → in_flight j s.1.inflight ≡ true → lookup j s.1.values ≡ none
    settled : All (Settled s.1) s.0

  -- A loading call among the others: its key is in flight.
  loading_flies :
      (j : String) (before after : List (Thread V E)) (k : String) (p : Point V E) (c : Shared V E)
      → loaders k (before ++ (record { key = k; point = p } ∷ after))
        ≤ flag (in_flight k c.inflight)
      → is_loading p ≡ true
      → in_flight k c.inflight ≡ true
  loading_flies j before after k p c h busy =
      ground (arith, loaders-append k before (record { key = k; point = p } ∷ after), eq_refl k)

module _ {V E : Type 0} (copy_error : V → Option E) where
  share-woken : (j k : String) (p : Point V E) → share j k (woken copy_error p) ≡ share j k p
  share-woken j k trying = refl
  share-woken j k waiting = refl
  share-woken j k loading = refl
  share-woken j k (returned v) = refl
  share-woken j k (failed e) = refl

  -- A notice changes nothing in the number of loaders.
  pub loaders-awake :
      (j : String) (b : Bool) (ts : List (Thread V E))
      → loaders j (awake copy_error b ts) ≡ loaders j ts
  loaders-awake j false ts = refl
  loaders-awake j true [] = refl
  loaders-awake j true (t ∷ ts) =
      omega (arith, share-woken j t.key t.point, loaders-awake j true ts)

  -- The loaders of a key, after a step and before it, are those of the others and the one that moves.
  pub loaders-step :
      (j : String) (b : Bool) (before after : List (Thread V E)) (k : String) (p : Point V E)
      → loaders j
          (awake copy_error b before ++ (record { key = k; point = p } ∷ awake copy_error b after))
        ≡ loaders j before + loaders j after + share j k p
  loaders-step j b before after k p = omega (
    arith,
    loaders-append j (awake copy_error b before)
        (record { key = k; point = p } ∷ awake copy_error b after),
    loaders-awake j b before,
    loaders-awake j b after,
  )

  others_keep :
      (k : String) (c : Shared V E) (p : Point V E) (q : Point V E × Shared V E) (b : Bool)
      → Local copy_error k c p q b
      → (is_loading p ≡ true → lookup k c.values ≡ none)
      → (t : Thread V E) → Settled c t
      → Settled q.1 t
  others_keep k c p q b step h t kept = by_point t.key t.point kept
    where
      by_point : (j : String) (r : Point V E) → Agrees c j r → Agrees q.1 j r
      by_point j trying a = tt
      by_point j waiting a = tt
      by_point j loading a = tt
      by_point j (failed e) a = tt
      by_point j (returned v) a = Local-keeps copy_error k j c p q b v step h a

  Agrees-woken :
      (c : Shared V E) (j : String) (p : Point V E) → Agrees c j p → Agrees c j (woken copy_error p)
  Agrees-woken c j trying a = tt
  Agrees-woken c j waiting a = tt
  Agrees-woken c j loading a = tt
  Agrees-woken c j (returned v) a = a
  Agrees-woken c j (failed e) a = tt

  awake-Settled :
      (c : Shared V E) (b : Bool) (ts : List (Thread V E))
      → All (Settled c) ts
      → All (Settled c) (awake copy_error b ts)
  awake-Settled c false ts h = h
  awake-Settled c true [] h = tt
  awake-Settled c true (t ∷ ts) (own, rest) =
      (Agrees-woken c t.key t.point own, awake-Settled c true ts rest)

  All-Settled :
      (k : String) (c : Shared V E) (p : Point V E) (q : Point V E × Shared V E) (b : Bool)
      (before after : List (Thread V E))
      → Local copy_error k c p q b
      → (is_loading p ≡ true → lookup k c.values ≡ none)
      → All (Settled c) (before ++ (record { key = k; point = p } ∷ after))
      → All (Settled q.1) (
          awake copy_error b before ++ (record { key = k; point = q.0 } ∷ awake copy_error b after))
  All-Settled k c p q b before after step h settled =
      let (own, rest) = All-split (Settled c) before _ settled in
      All-append (Settled q.1) (awake copy_error b before) _
        (awake-Settled q.1 b before (All-map (others_keep k c p q b step h) before own))
        (
          Local-Agrees copy_error k c p q b step,
          awake-Settled q.1 b after (All-map (others_keep k c p q b step h) after rest.1),
        )

  pub Step-keeps :
      (s t : List (Thread V E) × Shared V E)
      → Step copy_error s t
      → IsSingleFlight s
      → IsSingleFlight t
  Step-keeps s t (moves before after k p q b c step) inv = record {
    single = λ j. omega (
      arith,
      loaders-append j before (record { key = k; point = p } ∷ after),
      loaders-step j b before after k q.0,
      Local-single copy_error k j c p q b (loaders j before + loaders j after) step,
      inv.single j,
    );
    unfetched = λ j flying. Local-unfetched copy_error k j c p q b step (inv.unfetched j) flying;
    settled =
        All-Settled k c p q b before after step
          (λ busy. inv.unfetched k (loading_flies k before after k p c (inv.single k) busy))
          inv.settled;
  }

  pub Run-keeps :
      (s t : List (Thread V E) × Shared V E)
      → Run copy_error s t
      → IsSingleFlight s
      → IsSingleFlight t
  Run-keeps s t (done _) inv = inv
  Run-keeps s t (further _ u _ run step) inv = Step-keeps u t step (Run-keeps s u run inv)

module _ (V E : Type 0) where
  -- Calls of the keys, none of which has started, and an empty cache.
  abbrev pub calls : List String → List (Thread V E)
  calls [] = []
  calls (k ∷ ks) = record { key = k; point = trying } ∷ calls ks

  abbrev pub empty : Shared V E
  empty = record { values = []; inflight = [] }

  calls_idle : (j : String) (ks : List String) → loaders j (calls ks) ≡ 0
  calls_idle j [] = refl
  calls_idle j (k ∷ ks) = ground (arith, calls_idle j ks)

  calls-Settled : (ks : List String) → All (Settled empty) (calls ks)
  calls-Settled [] = tt
  calls-Settled (k ∷ ks) = (tt, calls-Settled ks)

  pub start-IsSingleFlight : (ks : List String) → IsSingleFlight (calls ks, empty)
  start-IsSingleFlight ks = record {
    single = λ j. omega (arith, calls_idle j ks);
    unfetched = λ j flying. cc;
    settled = calls-Settled ks;
  }

  -- Of any number of calls, however their steps interleave, at most one is in its loader for a key,
  -- and none is once the cache holds the key's value: no value is loaded twice.
  pub single_flight :
      (copy_error : V → Option E) (ks : List String) (threads : List (Thread V E)) (c : Shared V E)
      → Run copy_error (calls ks, empty) (threads, c)
      → (k : String) → (loaders k threads ≤ 1) × (lookup k c.values ≢ none → loaders k threads ≡ 0)
  single_flight copy_error ks threads c run k =
      let inv = Run-keeps copy_error (calls ks, empty) (threads, c) run (start-IsSingleFlight ks) in
      (at_most _ _ (inv.single k), none_held _ _ (inv.single k) (inv.unfetched k))
    where
      at_most : (n : ℕ) (b : Bool) → n ≤ flag b → n ≤ 1
      at_most n b h = ground arith

      none_held :
          (n : ℕ) (b : Bool)
          → n ≤ flag b
          → (b ≡ true → lookup k c.values ≡ none)
          → lookup k c.values ≢ none
          → n ≡ 0
      none_held n true h missing held = elim (held (missing refl)) [ ]
      none_held n false h missing held = ground arith

  got : (t : Thread V E) {r : Thread V E} → some t ≡ some r → t ≡ r
  got t h = cc

  value_at :
      (c : Shared V E) (threads : List (Thread V E)) (i : ℕ) (k : String) (v : V)
      → All (Settled c) threads
      → get_elem? threads i ≡ some (record { key = k; point = returned v })
      → lookup k c.values ≡ some v
  value_at c [] i k v h at = cc
  value_at c (t ∷ threads) zero k v (own, rest) at = subst (Settled c) (got t at) own
  value_at c (t ∷ threads) (suc i) k v (own, rest) at = value_at c threads i k v rest at

  -- However the steps interleave, all calls of one key that end with a value end with the same one,
  -- the one that the cache holds for the key.
  pub one_value :
      (copy_error : V → Option E) (ks : List String) (threads : List (Thread V E)) (c : Shared V E)
      → Run copy_error (calls ks, empty) (threads, c)
      → (i j : ℕ) (k : String) (v w : V)
      → get_elem? threads i ≡ some (record { key = k; point = returned v })
      → get_elem? threads j ≡ some (record { key = k; point = returned w })
      → (v ≡ w) × (lookup k c.values ≡ some v)
  one_value copy_error ks threads c run i j k v w at there =
      let inv = Run-keeps copy_error (calls ks, empty) (threads, c) run (start-IsSingleFlight ks) in
      let one = value_at c threads i k v inv.settled at in
      (cc (one, value_at c threads j k w inv.settled there), one)
