-- ===== src/Snapshot/Keyed/Invalidation.antt =====
-- After `delete` the key starts anew: the loads that were in flight for it cannot bring old data back.
use go_rocketmq_dashboard.Base.{
  ℕ, zero, suc, ◌≡◌, ◌≢◌, refl, ◌∙◌, Bool, Option, none, some, List, [], ◌∷◌, ◌++◌, ◌==◌, ==_refl,
  nat_eq, text_eq, get_elem?, count, arith, inl, inr, Bool-cases,
}
use go_rocketmq_dashboard.Base.Dict
use go_rocketmq_dashboard.Base.Dict.{lookup-insert, lookup-erase}
use go_rocketmq_dashboard.Base.Text.{Text, text}
use go_rocketmq_dashboard.Snapshot.{Load, Outcome, new_snapshot_store}
use go_rocketmq_dashboard.Snapshot.Keyed.{
  World, remove_at, found_or_new, snapshot, delete, land, finish_load,
}
use go_rocketmq_dashboard.Snapshot.Keyed.Steps.{in_flight, IsSound, delete-IsSound}

module _ {A : Type 0} where
  -- Loads in flight that end one after the other.
  pub finish_loads : List (ℕ × Outcome A × ℕ) → World A → World A
  finish_loads [] w = w
  finish_loads ((i, o, now) ∷ rest) w = finish_loads rest (finish_load i o now w)

  lookup-delete : (key : Text) (w : World A) → Dict.lookup key (delete key w).0.stores ≡ none
  unfolding delete
  lookup-delete key w = ground (arith, lookup-erase key key w.stores, ==_refl key)

  count-zero :
      (xs : List (ℕ × Load A)) (i p : ℕ) (l : Load A)
      → get_elem? xs i ≡ some (p, l)
      → count (λ (x : ℕ × Load A). x.0 == p) xs ≢ 0
  count-zero [] i p l h = cc
  count-zero (y ∷ xs) zero p l h = ground (arith, ==_refl p)
  count-zero (y ∷ xs) (suc i) p l h = ground (arith, count-zero xs i p l)

  count-remove_at_zero :
      (q : ℕ × Load A → Bool) (xs : List (ℕ × Load A)) (i : ℕ)
      → count q xs ≡ 0
      → count q (remove_at xs i) ≡ 0
  count-remove_at_zero q [] i h = refl
  count-remove_at_zero q (y ∷ xs) zero h = ground arith
  count-remove_at_zero q (y ∷ xs) (suc i) h = ground (arith, count-remove_at_zero q xs i)

  -- A store that no load is in flight for is left alone.
  land_elsewhere :
      (i : ℕ) (o : Outcome A) (now : ℕ) (w : World A) (r : Option (ℕ × Load A)) (p : ℕ)
      → get_elem? w.loads i ≡ r
      → in_flight w p ≡ 0
      → ((land i o now w r).cell p ≡ w.cell p) × (in_flight (land i o now w r) p ≡ 0)
  unfolding land
  land_elsewhere i o now w none p e h = (refl, h)
  land_elsewhere i o now w (some (q, l)) p e h = elim (Bool-cases (q == p)) [
    | inl same ↦ absurd (ground (arith, count-zero w.loads i q l e))
    | inr differ ↦ (rw differ, count-remove_at_zero _ w.loads i h)
  ]

  finish_loads_elsewhere :
      (ends : List (ℕ × Outcome A × ℕ)) (w : World A) (p : ℕ)
      → in_flight w p ≡ 0
      → (finish_loads ends w).cell p ≡ w.cell p
  unfolding finish_loads finish_load
  finish_loads_elsewhere [] w p h = refl
  finish_loads_elsewhere ((i, o, now) ∷ rest) w p h =
      let (cell, none_left) = land_elsewhere i o now w (get_elem? w.loads i) p refl h in
      finish_loads_elsewhere rest _ p none_left ∙ cell

  created_key :
      (zero_value : A) (key : Text) (w : World A) (ends : List (ℕ × Outcome A × ℕ))
      → Dict.lookup key w.stores ≡ none
      → in_flight w w.next ≡ 0
      → (finish_loads ends (snapshot zero_value key w).0).cell (snapshot zero_value key w).1
        ≡ new_snapshot_store zero_value (w.name ++ text ":" ++ key) w.ttl
  unfolding snapshot found_or_new
  created_key zero_value key w ends e h =
      rw (e, snapshot)
        (finish_loads_elsewhere ends (found_or_new zero_value key w none).0 w.next h
          ∙ (rw (==_refl w.next)))

  name-delete : (key : Text) (w : World A) → (delete key w).0.name ≡ w.name
  unfolding delete
  name-delete key w = ground arith

  ttl-delete : (key : Text) (w : World A) → (delete key w).0.ttl ≡ w.ttl
  unfolding delete
  ttl-delete key w = ground arith

  -- The first access after a deletion gives a new, empty store, and whatever loads then come to their
  -- end, with whatever outcomes, that store stays as it was created.
  pub snapshot-delete :
      (zero_value : A) (key : Text) (w : World A) (ends : List (ℕ × Outcome A × ℕ))
      → IsSound w
      → (finish_loads ends (snapshot zero_value key (delete key w).0).0).cell
          (snapshot zero_value key (delete key w).0).1
        ≡ new_snapshot_store zero_value (w.name ++ text ":" ++ key) w.ttl
  snapshot-delete zero_value key w ends s =
      let d = delete-IsSound key w s in
      created_key zero_value key (delete key w).0 ends (lookup-delete key w)
        (ground (arith, d.single_flight (delete key w).0.next, d.unused (delete key w).0.next))
      ∙ cc (name-delete key w, ttl-delete key w)
