-- ===== src/Cache.antt =====
-- redfish_ctl/redfish_manager.py: RedfishResponseCache, with the threads that call get_or_load.
pub mod Flight
pub mod Invariant
pub mod Waiting
pub mod Progress
mod Tests
use redfish_ctl.Common.{
  String, Bool, true, false, not, Option, none, some, List, [], ◌∷◌, ◌++◌, ◌==◌, ◌||◌, is_some,
  if◌then◌else◌,
}
use redfish_ctl.Common.Dict.{Dict, lookup, insert}
use redfish_ctl.Common.Effect.{Result, ok, raised}

-- k in keys
abbrev pub in_flight : String → List String → Bool
in_flight k [] = false
in_flight k (j ∷ js) = (j == k) || in_flight k js

-- keys.discard(k)
abbrev pub discard : String → List String → List String
discard k [] = []
discard k (j ∷ js) = let rest = discard k js in if j == k then rest else j ∷ rest

module _ (V E : Type 0) where
  -- `_values` and `_inflight`
  pub record Shared : Type 0 where
    pub values : Dict V
    pub inflight : List String

  -- Where a call of get_or_load stands: before a look at the cache (at its start, or woken up), in its
  -- wait for a notice, in its loader, or at its end.
  pub data Point : Type 0 where
    trying waiting loading : Point
    returned : V → Point
    failed : E → Point

  pub record Thread : Type 0 where
    pub key : String
    pub point : Point

-- `copy_error` is what `copy.deepcopy` raises for a value, if it does; else the copy is an equal value.
module _ {V E : Type 0} (copy_error : V → Option E) where
  abbrev pub copied : Option E → V → Point V E
  copied none v = returned v
  copied (some e) v = failed e

  -- What a call that gives a copy of a value ends with.
  abbrev pub given : V → Point V E
  given v = copied (copy_error v) v

  -- What a look gives: the value of the key, if there is one, and whether the key is in flight.
  abbrev look : Option V → Bool → String → Shared V E → Point V E × Shared V E
  look (some v) busy k c = (given v, c)
  look none true k c = (waiting, c)
  look none false k c = (loading, record { values = c.values; inflight = k ∷ c.inflight })

  -- A look at the cache under the lock, at the start or after a notice: the loop around `wait` makes the
  -- same tests in the same order, and gives the lock up in its wait.
  unfoldable pub attempt : String → Shared V E → Point V E × Shared V E
  attempt k c = look (lookup k c.values) (in_flight k c.inflight) k c

  -- What follows the first copy of a value that was loaded.
  abbrev store : Option E → String → V → Shared V E → Point V E × Shared V E
  unfolding insert
  store none k v c =
      (given v, record { values = insert k v c.values; inflight = discard k c.inflight })
  store (some e) k v c = (failed e, c)

  -- What follows the loader. A copy that raises does so outside of the `try`.
  unfoldable pub finish : String → Result E V → Shared V E → Point V E × Shared V E
  unfolding store
  finish k (ok v) c = store (copy_error v) k v c
  finish k (raised e) c = (failed e, record { values = c.values; inflight = discard k c.inflight })

  -- Whether what follows the loader comes to `notify_all`.
  abbrev pub notifies : Result E V → Bool
  notifies (ok v) = not (is_some (copy_error v))
  notifies (raised e) = true

  -- The part of a call that runs under the lock, from one point to the next, and whether it notifies.
  pub data Local (k : String) (c : Shared V E)
      : Point V E → Point V E × Shared V E → Bool → Type 0 where
    tries : Local k c trying (attempt k c) false
    loads : (outcome : Result E V) → Local k c loading (finish k outcome c) (notifies outcome)

  abbrev pub woken : Point V E → Point V E
  woken waiting = trying
  woken p = p

  -- The other calls after a step: a notice wakes up each one that waits, whatever its key is.
  abbrev pub awake : Bool → List (Thread V E) → List (Thread V E)
  awake false ts = ts
  awake true [] = []
  awake true (t ∷ ts) = record { key = t.key; point = woken t.point } ∷ awake true ts

  -- One thread of all moves on. A call that waits does not.
  pub data Step : List (Thread V E) × Shared V E → List (Thread V E) × Shared V E → Type 0 where
    moves :
        (before after : List (Thread V E)) (k : String) (p : Point V E) (q : Point V E × Shared V E)
        (b : Bool) (c : Shared V E)
        → Local k c p q b
        → Step
            (before ++ (record { key = k; point = p } ∷ after), c)
            (awake b before ++ (record { key = k; point = q.0 } ∷ awake b after), q.1)

  pub data Run : List (Thread V E) × Shared V E → List (Thread V E) × Shared V E → Type 0 where
    done : (s : List (Thread V E) × Shared V E) → Run s s
    further : (s t u : List (Thread V E) × Shared V E) → Run s t → Step t u → Run s u
