-- ===== src/Tests/Snapshot.antt =====
-- The snapshot stores at concrete inputs.
use go_rocketmq_dashboard.Base.{
  ℕ, ◌+◌, ◌<◌, ◌≤◌, ◌≡◌, ◌⊎◌, refl, true, false, none, some, [], ◌∷◌, ◌++◌, ltb, arith, text_eq,
  nat_eq,
}
use go_rocketmq_dashboard.Base.Dict
use go_rocketmq_dashboard.Base.Int.{pos}
use go_rocketmq_dashboard.Base.Text.{text}
use go_rocketmq_dashboard.Snapshot.{
  SnapshotStore, loaded, failed, view, unix_milli, new_snapshot_store, refresh_if_stale, finish,
}
use go_rocketmq_dashboard.Snapshot.Refreshing.{
  view-finish_failed, view-finish_loaded, refresh_if_stale_effect,
}
use go_rocketmq_dashboard.Snapshot.Keyed.{
  World, start, new_keyed_snapshot_store, snapshot, delete, refresh_at,
}
use go_rocketmq_dashboard.Snapshot.Keyed.Steps.{
  Reach, here, next_step, accessed, deleted, refreshed, IsSound, Reach-start-IsSound,
}
use go_rocketmq_dashboard.Snapshot.Keyed.Invalidation.{finish_loads, snapshot-delete}

-- A store that holds 7, loaded at 1000 with 50 to live.
abbrev store : SnapshotStore ℕ
store = record {
  name = text "topics";
  ttl = 50;
  value = 7;
  has_data = true;
  last_at = 1000;
  last_err = [];
  running = false;
  refresh_n = 1;
}

view-finish_failed_example :
    view (finish store (failed (text "timeout")) 1100) 1200
    ≡ record (view store 1200) { refreshing = false; last_error = text "timeout" }
view-finish_failed_example = view-finish_failed store (text "timeout") 1100 1200

view-finish_loaded_example : view (finish store (loaded 8) 1100) 1150 ≡ record {
  value = 8;
  has_data = true;
  stale = ltb (1100 + 50) 1150;
  refreshing = false;
  last_refresh_unix_milli = unix_milli 1100;
  last_error = [];
}
view-finish_loaded_example = view-finish_loaded store 8 1100 1150 (λ e. omega arith)

reload_started :
    (refresh_if_stale store 1051).1 ≡ some (record { previous = 7; has_previous = true })
unfolding refresh_if_stale
reload_started = refl

refresh_if_stale_effect_example :
    (((store.running ≡ true) ⊎ ((store.has_data ≡ true) × (1051 ≤ store.last_at + store.ttl)))
      × (refresh_if_stale store 1051 ≡ (store, none)))
    ⊎ ((store.running ≡ false)
        × ((store.has_data ≡ false) ⊎ (store.last_at + store.ttl < 1051))
        × ((refresh_if_stale store 1051).1
            ≡ some (record { previous = store.value; has_previous = store.has_data }))
        × ((t : ℕ)
            → view (refresh_if_stale store 1051).0 t ≡ record (view store t) { refreshing = true })
        × ((refresh_if_stale store 1051).0.refresh_n ≡ store.refresh_n + 1))
refresh_if_stale_effect_example = refresh_if_stale_effect store 1051

abbrev topics : World ℕ
topics = start 0 (new_keyed_snapshot_store (text "topics") (pos 5))

abbrev opened : World ℕ
opened = (snapshot 0 (text "main") topics).0

one_allocated : 0 < opened.next
unfolding snapshot start Dict.lookup new_keyed_snapshot_store
one_allocated = omega arith

-- A load that is in flight when its key is deleted.
abbrev orphaned : World ℕ
orphaned = (delete (text "main") (refresh_at 0 opened)).0

orphaned-Reach : Reach 0 topics orphaned
orphaned-Reach =
    next_step (next_step (next_step here (accessed (text "main"))) (refreshed 0 one_allocated))
      (deleted (text "main"))

Reach-start-IsSound_example : IsSound orphaned
Reach-start-IsSound_example = Reach-start-IsSound 0 (text "topics") (pos 5) orphaned-Reach

loading-Reach : Reach 0 topics (refresh_at 0 opened)
loading-Reach = next_step (next_step here (accessed (text "main"))) (refreshed 0 one_allocated)

snapshot-delete_example :
    (finish_loads
        ((0, loaded 9, 77) ∷ [])
        (snapshot 0 (text "main") (delete (text "main") (refresh_at 0 opened)).0).0).cell
      (snapshot 0 (text "main") (delete (text "main") (refresh_at 0 opened)).0).1
    ≡ new_snapshot_store 0
        ((refresh_at 0 opened).name ++ text ":" ++ text "main")
        (refresh_at 0 opened).ttl
snapshot-delete_example =
    snapshot-delete 0 (text "main") (refresh_at 0 opened) ((0, loaded 9, 77) ∷ [])
      (Reach-start-IsSound 0 (text "topics") (pos 5) loading-Reach)
