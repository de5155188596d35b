-- ===== src/Cache.antt =====
-- internal/cache/ttl.go: a cache of one value that expires. Times are nanoseconds since the zero time
-- of Go; the time to live is not negative. The lock makes each operation one step.
use go_rocketmq_dashboard.Base.{ℕ, ◌+◌, ◌≡◌, Option, none, some, if◌then◌else◌, ltb, arith}

pub record Entry (A : Type 0) : Type 0 where
  pub value : A
  pub expires_at : ℕ

pub record TtlCache (A : Type 0) : Type 0 where
  pub entry : Option (Entry A)
  pub ttl : ℕ

module _ {A : Type 0} where
  pub new_ttl_cache : ℕ → TtlCache A
  new_ttl_cache ttl = record { entry = none; ttl = ttl }

  pub get : TtlCache A → ℕ → Option A
  get c now = elim c.entry [
    | none ↦ none
    | some entry ↦ if ltb entry.expires_at now then none else some entry.value
  ]

  pub set : TtlCache A → ℕ → A → TtlCache A
  set c now value = record c { entry = some (record { value = value; expires_at = now + c.ttl }) }

  -- A fresh cache serves nothing. After a value is set, over whatever the cache held, it is served up
  -- to and including the end of its time to live and at no later time, and the time to live stays.
  pub get-set :
      (c : TtlCache A) (now later ttl : ℕ) (value : A)
      → (get (set c now value) later ≡ (if ltb (now + c.ttl) later then none else some value))
        × ((set c now value).ttl ≡ c.ttl)
        × (get (new_ttl_cache ttl) later ≡ none)
  unfolding get set new_ttl_cache
  get-set c now later ttl value = (ground arith, ground arith, ground arith)
