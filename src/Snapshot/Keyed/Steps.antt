-- ===== src/Snapshot/Keyed/Steps.antt =====
-- Every interleaving of requests and of loads that come to their end, as a step relation. The test
-- of `refreshIfStale` and its refresh are two critical sections: a refresh may follow at any later
-- time, so a step that refreshes stands alone.
use go_rocketmq_dashboard.Base.{
  ℕ, zero, suc, ◌+◌, ◌≤◌, ◌<◌, ◌≡◌, refl, Bool, false, Option, none, some, List, [], ◌∷◌,
  if◌then◌else◌, ◌==◌, nat_eq, text_eq, get_elem?, count, arith,
}
use go_rocketmq_dashboard.Base.Dict
use go_rocketmq_dashboard.Base.Dict.{Dict, lookup-insert, lookup-erase}
use go_rocketmq_dashboard.Base.Int.{ℤ}
use go_rocketmq_dashboard.Base.Text.{Text}
use go_rocketmq_dashboard.Snapshot.{
  Load, Outcome, loaded, failed, new_snapshot_store, refresh_async, refresh_if_stale, finish,
}
use go_rocketmq_dashboard.Snapshot.Keyed.{
  World, start, new_keyed_snapshot_store, remove_at, snapshot, delete, clear, refresh_at,
  refresh_if_stale_at, land, finish_load,
}

-- `p < w.next` says that a caller has got `p` from `snapshot`.
pub data Step {A : Type 0} (zero_value : A) (w : World A) : World A → Type 0 where
  accessed : (key : Text) → Step zero_value w (snapshot zero_value key w).0
  deleted : (key : Text) → Step zero_value w (delete key w).0
  cleared : Step zero_value w (clear w)
  refreshed : (p : ℕ) → p < w.next → Step zero_value w (refresh_at p w)
  refreshed_if_stale : (p now : ℕ) → p < w.next → Step zero_value w (refresh_if_stale_at p now w)
  finished : (i : ℕ) (o : Outcome A) (now : ℕ) → Step zero_value w (finish_load i o now w)

pub data Reach {A : Type 0} (zero_value : A) (w : World A) : World A → Type 0 where
  here : Reach zero_value w w
  next_step : {u v : World A} → Reach zero_value w u → Step zero_value u v → Reach zero_value w v

module _ {A : Type 0} where
  -- The loads in flight that will write to `p`.
  abbrev pub in_flight : World A → ℕ → ℕ
  in_flight w p = count (λ (q, _). q == p) w.loads

  -- The map points into the part of the heap that is in use, no two keys to one store, and a store
  -- says that it is running exactly while one load is in flight for it, and no more.
  pub record IsSound (w : World A) : Type 0 where
    pub allocated : (key : Text) (p : ℕ) → Dict.lookup key w.stores ≡ some p → p < w.next
    pub distinct :
        (j k : Text) (p : ℕ)
        → Dict.lookup j w.stores ≡ some p
        → Dict.lookup k w.stores ≡ some p
        → j ≡ k
    pub single_flight : (p : ℕ) → in_flight w p ≡ (if (w.cell p).running then 1 else 0)
    pub unused : (p : ℕ) → w.next ≤ p → (w.cell p).running ≡ false

  count-remove_at :
      (q : ℕ × Load A → Bool) (xs : List (ℕ × Load A)) (i : ℕ) (x : ℕ × Load A)
      → get_elem? xs i ≡ some x
      → count q xs ≡ count q (remove_at xs i) + (if q x then 1 else 0)
  count-remove_at q [] i x h = cc
  count-remove_at q (y ∷ xs) zero x h = ground arith
  count-remove_at q (y ∷ xs) (suc i) x h = ground (arith, count-remove_at q xs i x)

  start-IsSound :
      (zero_value : A) (name : Text) (ttl : ℤ)
      → IsSound (start zero_value (new_keyed_snapshot_store name ttl))
  unfolding start new_keyed_snapshot_store Dict.lookup new_snapshot_store
  start-IsSound zero_value name ttl = record {
    allocated = λ key p h. cc;
    distinct = λ j k p h h'. cc;
    single_flight = λ p. refl;
    unused = λ p h. refl;
  }

  snapshot-IsSound :
      (zero_value : A) (key : Text) (w : World A)
      → IsSound w
      → IsSound (snapshot zero_value key w).0
  unfolding snapshot new_snapshot_store
  snapshot-IsSound zero_value key w s = record {
    allocated = λ k p h. ground (arith, lookup-insert key k w.next w.stores, s.allocated k p);
    distinct = λ j k p h h'. ground (
      arith,
      lookup-insert key j w.next w.stores,
      lookup-insert key k w.next w.stores,
      s.distinct j k p,
      s.allocated j p,
      s.allocated k p,
    );
    single_flight = λ p. ground (arith, s.single_flight p, s.unused p);
    unused = λ p h. ground (arith, s.unused p);
  }

  pub delete-IsSound : (key : Text) (w : World A) → IsSound w → IsSound (delete key w).0
  unfolding delete
  delete-IsSound key w s = record {
    allocated = λ k p h. ground (arith, lookup-erase key k w.stores, s.allocated k p);
    distinct = λ j k p h h'.
        ground (arith, lookup-erase key j w.stores, lookup-erase key k w.stores, s.distinct j k p);
    single_flight = λ p. ground (arith, s.single_flight p);
    unused = λ p h. ground (arith, s.unused p);
  }

  clear-IsSound : (w : World A) → IsSound w → IsSound (clear w)
  unfolding clear Dict.lookup
  clear-IsSound w s = record {
    allocated = λ k p h. cc;
    distinct = λ j k p h h'. cc;
    single_flight = s.single_flight;
    unused = s.unused;
  }

  refresh_at-IsSound : (p : ℕ) (w : World A) → p < w.next → IsSound w → IsSound (refresh_at p w)
  unfolding refresh_at refresh_async
  refresh_at-IsSound p w used s = record {
    allocated = λ k q h. ground (arith, s.allocated k q);
    distinct = λ j k q h h'. ground (arith, s.distinct j k q);
    single_flight = λ q. ground (arith, s.single_flight q);
    unused = λ q h. ground (arith, s.unused q);
  }

  refresh_if_stale_at-IsSound :
      (p now : ℕ) (w : World A) → p < w.next → IsSound w → IsSound (refresh_if_stale_at p now w)
  unfolding refresh_if_stale_at refresh_if_stale
  refresh_if_stale_at-IsSound p now w used s = record {
    allocated = λ k q h. ground (arith, s.allocated k q);
    distinct = λ j k q h h'. ground (arith, s.distinct j k q);
    single_flight = λ q. ground (arith, s.single_flight q);
    unused = λ q h. ground (arith, s.unused q);
  }

  land-single_flight :
      (i : ℕ) (o : Outcome A) (now : ℕ) (w : World A) (r : Option (ℕ × Load A))
      → get_elem? w.loads i ≡ r
      → IsSound w
      → (q : ℕ)
      → in_flight (land i o now w r) q ≡ (if ((land i o now w r).cell q).running then 1 else 0)
  unfolding land finish
  land-single_flight i o now w none e s q = s.single_flight q
  land-single_flight i (loaded a) now w (some (p, l)) e s q =
      ground (
        arith,
        count-remove_at (λ (x : ℕ × Load A). x.0 == q) w.loads i (p, l) e,
        s.single_flight q,
      )
  land-single_flight i (failed m) now w (some (p, l)) e s q =
      ground (
        arith,
        count-remove_at (λ (x : ℕ × Load A). x.0 == q) w.loads i (p, l) e,
        s.single_flight q,
      )

  finish_load-IsSound :
      (i : ℕ) (o : Outcome A) (now : ℕ) (w : World A) → IsSound w → IsSound (finish_load i o now w)
  unfolding finish_load finish
  finish_load-IsSound i o now w s = record {
    allocated = λ k q h. ground (arith, s.allocated k q);
    distinct = λ j k q h h'. ground (arith, s.distinct j k q);
    single_flight = land-single_flight i o now w (get_elem? w.loads i) refl s;
    unused = λ q h. ground (arith, s.unused q);
  }

  Step-IsSound : {zero_value : A} {w v : World A} → Step zero_value w v → IsSound w → IsSound v
  Step-IsSound {zero_value} {w} (accessed key) s = snapshot-IsSound zero_value key w s
  Step-IsSound {w} (deleted key) s = delete-IsSound key w s
  Step-IsSound {w} cleared s = clear-IsSound w s
  Step-IsSound {w} (refreshed p used) s = refresh_at-IsSound p w used s
  Step-IsSound {w} (refreshed_if_stale p now used) s = refresh_if_stale_at-IsSound p now w used s
  Step-IsSound {w} (finished i o now) s = finish_load-IsSound i o now w s

  Reach-IsSound : {zero_value : A} {w v : World A} → IsSound w → Reach zero_value w v → IsSound v
  Reach-IsSound s here = s
  Reach-IsSound s (next_step r st) = Step-IsSound st (Reach-IsSound s r)

  -- Whatever requests come, and in whatever order loads end, every key keeps a store of its own, and
  -- a store has one load in flight while it says that it is running, and none otherwise.
  pub Reach-start-IsSound :
      (zero_value : A) (name : Text) (ttl : ℤ) {w : World A}
      → Reach zero_value (start zero_value (new_keyed_snapshot_store name ttl)) w
      → IsSound w
  Reach-start-IsSound zero_value name ttl r = Reach-IsSound (start-IsSound zero_value name ttl) r
