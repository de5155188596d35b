-- ===== src/Snapshot.antt =====
-- internal/server/snapshot.go: `snapshotStore`, the background refresh of one kind of data. A time
-- is the nanoseconds since Go's zero time, so `IsZero` is equality with 0. The type of the data is
-- a parameter with its zero value. A loader is remote code: what it returns is an `Outcome` that
-- the environment chooses, and `Load` is what its goroutine has captured.
pub mod Keyed
pub mod Refreshing
use go_rocketmq_dashboard.Base.{
  ℕ, ◌+◌, ◌/◌, Bool, true, false, not, ◌||◌, Option, none, some, [], if◌then◌else◌, ltb, ◌==◌,
  nat_eq,
}
use go_rocketmq_dashboard.Base.Int.{ℤ, pos, negsuc, sub_ℕ}
use go_rocketmq_dashboard.Base.Text.{Text}

pub record SnapshotView (A : Type 0) : Type 0 where
  pub value : A
  pub has_data : Bool
  pub stale : Bool
  pub refreshing : Bool
  pub last_refresh_unix_milli : ℤ
  pub last_error : Text

pub record SnapshotStore (A : Type 0) : Type 0 where
  pub name : Text
  pub ttl : ℕ
  pub value : A
  pub has_data : Bool
  pub last_at : ℕ
  pub last_err : Text
  pub running : Bool
  pub refresh_n : ℕ

-- `loader(ctx, previous, hasPrevious)`, not yet returned.
pub record Load (A : Type 0) : Type 0 where
  pub previous : A
  pub has_previous : Bool

pub data Outcome (A : Type 0) : Type 0 where
  loaded : A → Outcome A
  failed : Text → Outcome A

-- A duration that is not positive becomes two seconds.
pub ttl_or_default : ℤ → ℕ
ttl_or_default (pos ttl) = if ttl == 0 then 2_000_000_000 else ttl
ttl_or_default (negsuc _) = 2_000_000_000

-- `t.UnixMilli()`: the Unix epoch is 62135596800 seconds behind the zero time.
pub unix_milli : ℕ → ℤ
unix_milli t = sub_ℕ (t / 1_000_000) 62_135_596_800_000

module _ {A : Type 0} where
  -- `zero_value` is what Go's `var` gives to the data.
  pub new_snapshot_store : A → Text → ℤ → SnapshotStore A
  new_snapshot_store zero_value name ttl = record {
    name = name;
    ttl = ttl_or_default ttl;
    value = zero_value;
    has_data = false;
    last_at = 0;
    last_err = [];
    running = false;
    refresh_n = 0;
  }

  -- `now.After(s.lastAt.Add(s.ttl))`
  unfoldable pub is_expired : SnapshotStore A → ℕ → Bool
  is_expired s now = ltb (s.last_at + s.ttl) now

  pub view : SnapshotStore A → ℕ → SnapshotView A
  unfolding is_expired
  view s now = record {
    value = s.value;
    has_data = s.has_data;
    stale = if s.last_at == 0 then true else is_expired s now;
    refreshing = s.running;
    last_refresh_unix_milli = if s.last_at == 0 then pos 0 else unix_milli s.last_at;
    last_error = s.last_err;
  }

  -- The store after the call, and the load that it has started, if it has.
  unfoldable pub refresh_async : SnapshotStore A → SnapshotStore A × Option (Load A)
  refresh_async s = if s.running then (s, none) else (
    record s { running = true; refresh_n = s.refresh_n + 1 },
    some (record { previous = s.value; has_previous = s.has_data }),
  )

  unfoldable pub refresh_if_stale : SnapshotStore A → ℕ → SnapshotStore A × Option (Load A)
  unfolding refresh_async is_expired
  refresh_if_stale s now = if not s.has_data || is_expired s now then refresh_async s else (s, none)

  -- The end of the goroutine: the loader has returned at the time `now`.
  pub finish : SnapshotStore A → Outcome A → ℕ → SnapshotStore A
  finish s (failed e) now = record s { running = false; last_err = e }
  finish s (loaded a) now = record s {
    running = false;
    value = a;
    has_data = true;
    last_at = now;
    last_err = [];
  }
