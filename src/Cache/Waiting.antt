-- ===== src/Cache/Waiting.antt =====
-- What a call of the response cache waits for: a key in flight, and so a call that is in its loader.
use redfish_ctl.Common.{
  ℕ, ◌+◌, ◌≤◌, String, ◌≡◌, inl, inr, refl, Option, Bool, true, false, none, some, List, [], ◌∷◌,
  arith, All, All-map, All-append, All-split,
}
use redfish_ctl.Cache.{
  in_flight, Shared, Point, trying, waiting, loading, returned, failed, Thread, copied, given,
  woken, awake, Local, tries, loads, Step, moves, Run, done, further,
}
use redfish_ctl.Cache.Flight.{
  flag, share, in_flight-discard, attempt-cases, finish-cases, given_out,
}
use redfish_ctl.Cache.Invariant.{loaders, loaders-append, loaders-step, calls, empty}

module _ {V E : Type 0} where
  abbrev pub is_waiting : Point V E → Bool
  is_waiting waiting = true
  is_waiting p = false

  -- The key that a call waits for is in flight.
  abbrev pub Waits : Shared V E → Thread V E → Type 0
  Waits c t = is_waiting t.point ≡ true → in_flight t.key c.inflight ≡ true

module _ {V E : Type 0} (copy_error : V → Option E) where
  given_quiet : (v : V) → is_waiting (given copy_error v) ≡ false
  given_quiet v = by_copy (copy_error v)
    where
      by_copy : (o : Option E) → is_waiting (copied copy_error o v) ≡ false
      by_copy none = refl
      by_copy (some e) = refl

  woken_quiet : (p : Point V E) → is_waiting (woken copy_error p) ≡ false
  woken_quiet trying = refl
  woken_quiet waiting = refl
  woken_quiet loading = refl
  woken_quiet (returned v) = refl
  woken_quiet (failed e) = refl

  -- After a notice no call waits.
  notified-Waits :
      (c : Shared V E) (ts : List (Thread V E)) → All (Waits c) (awake copy_error true ts)
  notified-Waits c [] = tt
  notified-Waits c (t ∷ ts) =
      (λ waits. let quiet = woken_quiet t.point in absurd cc, notified-Waits c ts)

  Local-Waits :
      (k : String) (c : Shared V E) (p : Point V E) (q : Point V E × Shared V E) (b : Bool)
      → Local copy_error k c p q b
      → Waits q.1 (record { key = k; point = q.0 })
  Local-Waits k c trying q b tries = elim (attempt-cases copy_error k c) [
    | inl (v, found, e) ↦ rw e (λ waits. let quiet = given_quiet v in absurd cc)
    | inr (missing, inl (busy, e)) ↦ rw e (λ waits. busy)
    | inr (missing, inr (free, e)) ↦ rw e (λ waits. absurd cc)
  ]
  Local-Waits k c waiting q b never = elim never [ ]
  Local-Waits k c (returned _) q b never = elim never [ ]
  Local-Waits k c (failed _) q b never = elim never [ ]
  Local-Waits k c loading q b (loads r) = elim (finish-cases copy_error k r c) [
    | inl (v, told, e) ↦ rw e (λ waits. absurd cc)
    | inr (inl (x, told, e)) ↦ rw e (λ waits. absurd cc)
    | inr (inr (x, v, untold, wrong, e)) ↦ rw e (λ waits. absurd cc)
  ]

  -- A step that does not notify takes no key out of flight.
  Local-flying :
      (k j : String) (c : Shared V E) (p : Point V E) (q : Point V E × Shared V E)
      → Local copy_error k c p q false
      → in_flight j c.inflight ≡ true
      → in_flight j q.1.inflight ≡ true
  Local-flying k j c p q step h = by_notice p q false refl step
    where
      by_notice :
          (p : Point V E) (q : Point V E × Shared V E) (b : Bool)
          → b ≡ false
          → Local copy_error k c p q b
          → in_flight j q.1.inflight ≡ true
      by_notice trying q b silent tries = elim (attempt-cases copy_error k c) [
        | inl (v, found, e) ↦ rw e h
        | inr (missing, inl (busy, e)) ↦ rw e h
        | inr (missing, inr (free, e)) ↦ rw e (ground (arith, h))
      ]
      by_notice waiting q b silent never = elim never [ ]
      by_notice (returned _) q b silent never = elim never [ ]
      by_notice (failed _) q b silent never = elim never [ ]
      by_notice loading q b silent (loads r) = elim (finish-cases copy_error k r c) [
        | inl (v, told, e) ↦ absurd cc
        | inr (inl (x, told, e)) ↦ absurd cc
        | inr (inr (x, v, untold, wrong, e)) ↦ rw e h
      ]

  others-Waits :
      (k : String) (c : Shared V E) (p : Point V E) (q : Point V E × Shared V E) (b : Bool)
      → Local copy_error k c p q b
      → (ts : List (Thread V E)) → All (Waits c) ts
      → All (Waits q.1) (awake copy_error b ts)
  others-Waits k c p q true step ts h = notified-Waits q.1 ts
  others-Waits k c p q false step ts h =
      All-map (λ t waits at. Local-flying k t.key c p q step (waits at)) ts h

  Step-Waits :
      (s t : List (Thread V E) × Shared V E)
      → Step copy_error s t
      → All (Waits s.1) s.0
      → All (Waits t.1) t.0
  Step-Waits s t (moves before after k p q b c step) h =
      let (own, rest) = All-split (Waits c) before _ h in
      All-append (Waits q.1) (awake copy_error b before) _ (others-Waits k c p q b step before own)
        (Local-Waits k c p q b step, others-Waits k c p q b step after rest.1)

  -- Where every value can be copied, a key in flight has a call in its loader.
  Local-flies :
      ((v : V) → copy_error v ≡ none)
      → (k j : String) (c : Shared V E) (p : Point V E) (q : Point V E × Shared V E) (b : Bool)
        (n : ℕ)
      → Local copy_error k c p q b
      → flag (in_flight j c.inflight) ≤ n + share j k p
      → flag (in_flight j q.1.inflight) ≤ n + share j k q.0
  Local-flies copies k j c trying q b n tries h = elim (attempt-cases copy_error k c) [
    | inl (v, found, e) ↦ rw e (ground (arith, given_out copy_error v))
    | inr (missing, inl (busy, e)) ↦ rw e (ground arith)
    | inr (missing, inr (free, e)) ↦ rw e (ground arith)
  ]
  Local-flies copies k j c waiting q b n never h = elim never [ ]
  Local-flies copies k j c (returned _) q b n never h = elim never [ ]
  Local-flies copies k j c (failed _) q b n never h = elim never [ ]
  Local-flies copies k j c loading q b n (loads r) h = elim (finish-cases copy_error k r c) [
    | inl (v, told, e) ↦ rw e (ground (arith, in_flight-discard j k c.inflight))
    | inr (inl (x, told, e)) ↦ rw e (ground (arith, in_flight-discard j k c.inflight))
    | inr (inr (x, v, untold, wrong, e)) ↦ let fine = copies v in absurd cc
  ]

  -- Each key in flight has a loader, and each call that waits a key in flight.
  pub record IsLive (s : List (Thread V E) × Shared V E) : Type 0 where
    pub flies : (j : String) → flag (in_flight j s.1.inflight) ≤ loaders j s.0
    pub waits : All (Waits s.1) s.0

  pub Step-IsLive :
      ((v : V) → copy_error v ≡ none)
      → (s t : List (Thread V E) × Shared V E) → Step copy_error s t
      → IsLive s
      → IsLive t
  Step-IsLive copies s t (moves before after k p q b c step) live = record {
    flies = λ j. omega (
      arith,
      loaders-append j before (record { key = k; point = p } ∷ after),
      loaders-step copy_error j b before after k q.0,
      Local-flies copies k j c p q b (loaders j before + loaders j after) step,
      live.flies j,
    );
    waits = Step-Waits s t (moves before after k p q b c step) live.waits;
  }

  pub Run-IsLive :
      ((v : V) → copy_error v ≡ none)
      → (s t : List (Thread V E) × Shared V E) → Run copy_error s t
      → IsLive s
      → IsLive t
  Run-IsLive copies s t (done _) live = live
  Run-IsLive copies s t (further _ u _ run step) live =
      Step-IsLive copies u t step (Run-IsLive copies s u run live)

module _ {V E : Type 0} (copy_error : V → Option E) where
  calls-Waits : (ks : List String) → All (Waits (empty V E)) (calls V E ks)
  calls-Waits [] = tt
  calls-Waits (k ∷ ks) = (λ waits. absurd cc, calls-Waits ks)

  pub start-IsLive : (ks : List String) → IsLive copy_error (calls V E ks, empty V E)
  start-IsLive ks = record { flies = λ j. omega arith; waits = calls-Waits ks }
