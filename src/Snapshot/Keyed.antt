-- ===== src/Snapshot/Keyed.antt =====
-- `keyedSnapshotStore` of snapshot.go. Its map holds pointers: a goroutine goes on writing to the
-- store that it was started for, also after the key has been deleted. So stores live on a heap,
-- and the loads in flight name the cell that they will write to.
pub mod Steps
pub mod Invalidation
use go_rocketmq_dashboard.Base.{
  ℕ, zero, suc, ◌+◌, Bool, true, false, Option, none, some, List, [], ◌∷◌, ◌++◌, if◌then◌else◌,
  ◌==◌, nat_eq, text_eq, get_elem?,
}
use go_rocketmq_dashboard.Base.Dict
use go_rocketmq_dashboard.Base.Dict.{Dict}
use go_rocketmq_dashboard.Base.Int.{ℤ, pos}
use go_rocketmq_dashboard.Base.Text.{Text, text}
use go_rocketmq_dashboard.Snapshot.{
  SnapshotStore, Load, Outcome, ttl_or_default, new_snapshot_store, refresh_async, refresh_if_stale,
  finish,
}

pub record KeyedSnapshotStore : Type 0 where
  pub name : Text
  pub ttl : ℤ
  pub stores : Dict Text ℕ

-- The keyed store with the heap that its pointers go into, and the goroutines in flight.
pub record World (A : Type 0) : Type 0 where
  pub keyed : KeyedSnapshotStore
  pub open keyed use *
  pub cell : ℕ → SnapshotStore A
  pub next : ℕ
  pub loads : List (ℕ × Load A)

-- `newKeyedSnapshotStore`
unfoldable pub new_keyed_snapshot_store : Text → ℤ → KeyedSnapshotStore
new_keyed_snapshot_store name ttl = record {
  name = name;
  ttl = pos (ttl_or_default ttl);
  stores = [];
}

abbrev pub remove_at {ℓ} : {B : Type ℓ} → List B → ℕ → List B
remove_at [] i = []
remove_at (x ∷ xs) zero = xs
remove_at (x ∷ xs) (suc i) = x ∷ remove_at xs i

module _ {A : Type 0} where
  -- Before the first request: no key, no load, and a heap of which nothing is in use.
  unfoldable pub start : A → KeyedSnapshotStore → World A
  start zero_value keyed = record {
    keyed = keyed;
    cell = λ p. new_snapshot_store zero_value [] keyed.ttl;
    next = 0;
    loads = [];
  }

  abbrev pub update : (ℕ → SnapshotStore A) → ℕ → SnapshotStore A → ℕ → SnapshotStore A
  update cell p s q = if p == q then s else cell q

  -- `s.snapshot(key)`: the pointer, and a new store on the first access.
  unfoldable pub found_or_new : A → Text → World A → Option ℕ → World A × ℕ
  found_or_new zero_value key w (some p) = (w, p)
  found_or_new zero_value key w none = (
    record w {
      keyed = record w.keyed { stores = Dict.insert key w.next w.stores };
      cell = update w.cell w.next (new_snapshot_store zero_value (w.name ++ text ":" ++ key) w.ttl);
      next = suc w.next;
    },
    w.next,
  )

  unfoldable pub snapshot : A → Text → World A → World A × ℕ
  unfolding found_or_new
  snapshot zero_value key w = found_or_new zero_value key w (Dict.lookup key w.stores)

  found_or_absent : Text → World A → Option ℕ → World A × Bool
  found_or_absent key w none = (w, false)
  found_or_absent key w (some p) =
      (record w { keyed = record w.keyed { stores = Dict.erase key w.stores } }, true)

  -- `s.delete(key)`
  pub delete : Text → World A → World A × Bool
  unfolding found_or_absent
  delete key w = found_or_absent key w (Dict.lookup key w.stores)

  -- `s.clear()`
  pub clear : World A → World A
  clear w = record w { keyed = record w.keyed { stores = [] } }

  -- The store at `p` is written back, and a load that was started goes into flight.
  launch : ℕ → World A → SnapshotStore A × Option (Load A) → World A
  launch p w (s, none) = record w { cell = update w.cell p s }
  launch p w (s, some l) = record w { cell = update w.cell p s; loads = (p, l) ∷ w.loads }

  -- `refreshAsync` and `refreshIfStale` of the store at `p`.
  pub refresh_at : ℕ → World A → World A
  unfolding launch
  refresh_at p w = launch p w (refresh_async (w.cell p))

  pub refresh_if_stale_at : ℕ → ℕ → World A → World A
  unfolding launch
  refresh_if_stale_at p now w = launch p w (refresh_if_stale (w.cell p) now)

  pub land : ℕ → Outcome A → ℕ → World A → Option (ℕ × Load A) → World A
  land i o now w none = w
  land i o now w (some (p, l)) = record w {
    cell = update w.cell p (finish (w.cell p) o now);
    loads = remove_at w.loads i;
  }

  -- The goroutine of the `i`-th load in flight ends with the outcome `o`.
  pub finish_load : ℕ → Outcome A → ℕ → World A → World A
  unfolding land
  finish_load i o now w = land i o now w (get_elem? w.loads i)
