-- ===== src/Snapshot/Refreshing.antt =====
-- What a refresh does to what readers see.
use go_rocketmq_dashboard.Base.{
  ℕ, ◌+◌, ◌<◌, ◌≤◌, ◌≡◌, ◌≢◌, ◌↔◌, ◌⊎◌, true, false, Bool-cases, inl, inr, none, some, [], ltb,
  nat_eq, arith,
}
use go_rocketmq_dashboard.Base.Text.{Text}
use go_rocketmq_dashboard.Snapshot.{
  SnapshotStore, loaded, failed, view, unix_milli, refresh_if_stale, finish,
}

module _ {A : Type 0} (s : SnapshotStore A) where
  -- A load that fails takes nothing away from readers: at every later time they see the data, its
  -- age and its refresh time as before, with the error and no refresh running.
  pub view-finish_failed :
      (e : Text) (finished now : ℕ)
      → view (finish s (failed e) finished) now
        ≡ record (view s now) { refreshing = false; last_error = e }
  unfolding view finish
  view-finish_failed e finished now = ground arith

  -- A load that returns at a proper time is what readers see, with no error and no refresh running;
  -- it is fresh until its time to live has passed, and stale from then on.
  pub view-finish_loaded :
      (a : A) (finished now : ℕ)
      → finished ≢ 0
      → view (finish s (loaded a) finished) now ≡ record {
        value = a;
        has_data = true;
        stale = ltb (finished + s.ttl) now;
        refreshing = false;
        last_refresh_unix_milli = unix_milli finished;
        last_error = [];
      }
  unfolding view finish
  view-finish_loaded a finished now h = ground arith

  -- `refreshIfStale` starts no load exactly when one is running, or there is data whose time to live
  -- has not passed.
  pub refresh_if_stale_starts :
      (now : ℕ)
      → ((refresh_if_stale s now).1 ≡ none)
        ↔ ((s.running ≡ true) ⊎ ((s.has_data ≡ true) × (ltb (s.last_at + s.ttl) now ≡ false)))
  unfolding refresh_if_stale
  refresh_if_stale_starts now = (λ h. ground arith, λ h. ground arith)

  -- A call that starts no load changes nothing.
  pub refresh_if_stale_idle :
      (now : ℕ) → (refresh_if_stale s now).1 ≡ none → (refresh_if_stale s now).0 ≡ s
  unfolding refresh_if_stale
  refresh_if_stale_idle now h = ground arith

  -- `refreshIfStale` while a load is running, or with data whose time to live has not passed, starts
  -- no load and changes nothing. Otherwise, with no load running, and without data or with its time
  -- to live passed, it starts a load, which is handed the data of that moment; readers see the same
  -- as before at every time, but for the mark of a refresh; and the count of refreshes grows by one.
  pub refresh_if_stale_effect :
      (now : ℕ)
      → (((s.running ≡ true) ⊎ ((s.has_data ≡ true) × (now ≤ s.last_at + s.ttl)))
          × (refresh_if_stale s now ≡ (s, none)))
        ⊎ ((s.running ≡ false)
            × ((s.has_data ≡ false) ⊎ (s.last_at + s.ttl < now))
            × ((refresh_if_stale s now).1
                ≡ some (record { previous = s.value; has_previous = s.has_data }))
            × ((t : ℕ)
                → view (refresh_if_stale s now).0 t ≡ record (view s t) { refreshing = true })
            × ((refresh_if_stale s now).0.refresh_n ≡ s.refresh_n + 1))
  unfolding refresh_if_stale view
  refresh_if_stale_effect now = elim (Bool-cases s.running) [
    | inl running ↦ inl (inl running, ground arith)
    | inr idle ↦ elim (Bool-cases s.has_data) [
      | inr no_data ↦ inr (idle, inl no_data, ground arith, λ t. ground arith, ground arith)
      | inl data_there ↦ elim (Bool-cases (ltb (s.last_at + s.ttl) now)) [
        | inl old ↦ inr (idle, inr (ground arith), ground arith, λ t. ground arith, ground arith)
        | inr fresh ↦ inl (inr (data_there, ground arith), ground arith)
      ]
    ]
  ]
