-- ===== src/Registry/Definition/Mappings.antt =====
-- What `normalizeBrokerAddressMappings` lets through.
use go_rocketmq_dashboard.Base.{
  ◌≤◌, ◌≡◌, ◌⊎◌, inl, inr, refl, true, false, Option, none, some, List, [], ◌∷◌, ◌++◌,
  if◌then◌else◌, ◌==◌, ==→≡, text_eq, Bool-cases, All, All-append, All-imp, count, count-append,
  arith,
}
use mathlib.Core.Path.{subst}
use go_rocketmq_dashboard.Base.Sort.{
  IsWeakOrder, IsSorted, sort_stable, sort_stable-All, sort_stable-IsSorted, count-sort_stable,
  any-sort_stable,
}
use go_rocketmq_dashboard.Base.Text.{Text, text_less-IsWeakOrder, to_lower, split_on}
use go_rocketmq_dashboard.Registry.Definition.{
  BrokerAddressMapping, DefinitionError, Normalized, ok, err, mapping_host_repeated, continue_ok,
  Net, matches_broker_host, is_ip, name_server_host, normalize_mapping, has_host, collect_mappings,
  check_endpoints, host_less, checked, normalize_broker_address_mappings,
}

host_less-IsWeakOrder : IsWeakOrder host_less
unfolding host_less
host_less-IsWeakOrder = record {
  asymm = λ a b h. text_less-IsWeakOrder.asymm a.host b.host h;
  trans = λ a b c h k. text_less-IsWeakOrder.trans a.host b.host c.host h k;
}

module _ (net : Net) where
  abbrev pub IsNamed : BrokerAddressMapping → Type 0
  IsNamed m = (matches_broker_host m.host ≡ true) × (is_ip net m.host ≡ false)

  -- An endpoint that names no host, or an address, or a host that has a mapping.
  abbrev pub IsCovered : List BrokerAddressMapping → Text → Type 0
  IsCovered mappings endpoint =
      (name_server_host net endpoint ≡ [])
      ⊎ ((is_ip net (name_server_host net endpoint) ≡ true)
          ⊎ (has_host (to_lower (name_server_host net endpoint)) mappings ≡ true))

  -- Mappings of host names, one for each, in their order; none at all, or enough of them for every
  -- endpoint of the NameServer.
  pub record IsSound (name_server : Text) (mappings : List BrokerAddressMapping) : Type 0 where
    pub named : All IsNamed mappings
    pub distinct : (host : Text) → count (λ m. m.host == host) mappings ≤ 1
    pub sorted : IsSorted host_less mappings
    pub covered : (mappings ≡ []) ⊎ All (IsCovered mappings) (split_on b';' name_server)

  normalize_mapping-IsNamed :
      (m item : BrokerAddressMapping) → normalize_mapping net m ≡ ok item → IsNamed item
  unfolding normalize_mapping
  normalize_mapping-IsNamed m item h = ground arith

  count_of_new :
      (host : Text) (l : List BrokerAddressMapping)
      → has_host host l ≡ false
      → count (λ m. m.host == host) l ≡ 0
  count_of_new host [] h = refl
  count_of_new host (m ∷ l) h = ground (arith, count_of_new host l)

  add_distinct :
      (item : BrokerAddressMapping) (kept : List BrokerAddressMapping)
      → has_host item.host kept ≡ false
      → ((host : Text) → count (λ m. m.host == host) kept ≤ 1)
      → (host : Text) → count (λ m. m.host == host) (kept ++ item ∷ []) ≤ 1
  add_distinct item kept new d host = elim (Bool-cases (item.host == host)) [
    | inl same ↦ ground (
      arith,
      count-append (λ m. m.host == host) kept (item ∷ []),
      subst (λ x. count (λ m. m.host == x) kept ≡ 0) (==→≡ item.host host same)
          (count_of_new item.host kept new),
    )
    | inr other ↦ ground (arith, count-append (λ m. m.host == host) kept (item ∷ []), d host)
  ]

  collected :
      (kept ms out : List BrokerAddressMapping)
      → All IsNamed kept
      → ((host : Text) → count (λ m. m.host == host) kept ≤ 1)
      → collect_mappings net kept ms ≡ ok out
      → All IsNamed out × ((host : Text) → count (λ m. m.host == host) out ≤ 1)
  unfolding collect_mappings
  collected kept [] out n d h = let same : kept ≡ out = ground arith in rw (← same) (n, d)
  collected kept (m ∷ ms) out n d h =
      let (item, first, rest) = continue_ok (normalize_mapping net m) (next kept ms) h in
      let (new, later) = next_ok item rest in
      collected (kept ++ item ∷ []) ms out
        (All-append IsNamed kept (item ∷ []) n (normalize_mapping-IsNamed m item first, tt))
        (add_distinct item kept new d) later
    where
      next :
          List BrokerAddressMapping
          → List BrokerAddressMapping
          → BrokerAddressMapping
          → Normalized (List BrokerAddressMapping)
      next kept ms item =
          let rest = collect_mappings net (kept ++ item ∷ []) ms in
          if has_host item.host kept then err (mapping_host_repeated item.host) else rest

      next_ok :
          (item : BrokerAddressMapping)
          → next kept ms item ≡ ok out
          → (has_host item.host kept ≡ false)
            × (collect_mappings net (kept ++ item ∷ []) ms ≡ ok out)
      next_ok item h = (ground arith, ground arith)

  check_endpoints-IsCovered :
      (mappings : List BrokerAddressMapping) (endpoints : List Text)
      → check_endpoints net mappings endpoints ≡ none
      → All (IsCovered mappings) endpoints
  unfolding check_endpoints
  check_endpoints-IsCovered mappings [] h = tt
  check_endpoints-IsCovered mappings (e ∷ es) h =
      (ground arith, check_endpoints-IsCovered mappings es (ground arith))

  sorted-IsCovered :
      (mappings : List BrokerAddressMapping) (endpoints : List Text)
      → All (IsCovered mappings) endpoints
      → All (IsCovered (sort_stable host_less mappings)) endpoints
  sorted-IsCovered mappings endpoints h =
      All-imp (IsCovered mappings) (IsCovered (sort_stable host_less mappings))
        (λ e c. rw any-sort_stable c) endpoints h

  checked-IsSound :
      (name_server : Text) (kept out : List BrokerAddressMapping)
      → All IsNamed kept
      → ((host : Text) → count (λ m. m.host == host) kept ≤ 1)
      → (o : Option DefinitionError) → check_endpoints net kept (split_on b';' name_server) ≡ o
      → checked o kept ≡ ok out
      → IsSound name_server out
  unfolding checked
  checked-IsSound name_server kept out n d (some e) c h = cc
  checked-IsSound name_server kept out n d none c h =
      let same : sort_stable host_less kept ≡ out = ground arith in
      rw (← same) (record {
        named = sort_stable-All host_less IsNamed kept n;
        distinct = λ host. rw (count-sort_stable host_less (λ m. m.host == host) kept) (d host);
        sorted = sort_stable-IsSorted host_less host_less-IsWeakOrder kept;
        covered = inr (
            sorted-IsCovered kept (split_on b';' name_server)
              (check_endpoints-IsCovered kept (split_on b';' name_server) c));
      })

  -- Mappings that `normalizeBrokerAddressMappings` accepts come out sorted by host, no host twice, each
  -- of a valid host name that is no address; and unless there are none, every endpoint of the
  -- NameServer names no host, or an address, or a host that has a mapping.
  pub normalize_broker_address_mappings-IsSound :
      (name_server : Text) (mappings out : List BrokerAddressMapping)
      → normalize_broker_address_mappings net name_server mappings ≡ ok out
      → IsSound name_server out
  unfolding normalize_broker_address_mappings
  normalize_broker_address_mappings-IsSound name_server [] out h =
      let same : [] ≡ out = ground arith in
      rw (← same)
        (record { named = tt; distinct = λ host. omega arith; sorted = tt; covered = inl refl })
  normalize_broker_address_mappings-IsSound name_server (m ∷ ms) out h =
      let (kept, first, last) =
        continue_ok (collect_mappings net [] (m ∷ ms))
          (λ kept. checked (check_endpoints net kept (split_on b';' name_server)) kept) h in
      let (n, d) = collected [] (m ∷ ms) kept tt (λ host. omega arith) first in
      checked-IsSound name_server kept out n d
        (check_endpoints net kept (split_on b';' name_server)) refl last
