-- ===== src/Orchestrator/Bounded/Laws.antt =====
-- The map stays within its limit, keeps the entry just written, and changes no value.
use corsa_bind.Common.{
  ℕ, ◌≤◌, true, none, some, List, [], ◌∷◌, ◌++◌, String, string_eq, ◌==◌, if◌then◌else◌, ltb,
  length, lookup, insert, remove, retain_ne, elem, elem_head, elem_second, keys, IsDistinct,
  IsDistinct-retain_ne, IsDistinct-concat, IsDistinct-insert, elem-retain_ne, elem-append,
  elem-keys-insert, keys-remove, lookup-insert, lookup-remove, ◌≡◌, ◌⊎◌, inl, inr, refl, ap, ◌∙◌,
  arith, Bool-cases,
}
use corsa_bind.Orchestrator.Bounded.{is_some, Bounded, evict, remember, store, invalidate}

module _ {ℓ} {V : Type ℓ} where
  -- Every key of the map stands in the order, and none twice in the order or in the map.
  pub record IsKept (order : List String) (entries : List (String × V)) : Type ℓ where
    pub covers : (k : String) → elem k (keys entries) ≡ true → elem k order ≡ true
    pub keys_distinct : IsDistinct (keys entries)
    pub order_distinct : IsDistinct order

  abbrev pub IsWell : Bounded V → Type ℓ
  IsWell b = IsKept b.order b.entries

  IsKept-evict :
      (k : String) (order : List String) (entries : List (String × V))
      → IsKept (k ∷ order) entries
      → IsKept order (remove k entries)
  IsKept-evict k order entries h = record {
    covers = λ j e. ground (
      arith,
      h.covers j,
      elem-retain_ne k j (keys entries),
      ap (elem j) (keys-remove k entries),
      string_eq.beq_iff k j,
    );
    keys_distinct =
        rw (keys-remove k entries) (IsDistinct-retain_ne k (keys entries) h.keys_distinct);
    order_distinct = h.order_distinct.1;
  }

  -- What eviction leaves: at most the limit, still well kept, with the values as they were.
  pub record Evicts (limit : ℕ) (entries : List (String × V)) (b : Bounded V) : Type ℓ where
    pub within : length b.entries ≤ limit
    pub kept : IsWell b
    pub values :
        (j : String) → (lookup j b.entries ≡ lookup j entries) ⊎ (lookup j b.entries ≡ none)

  no_keys : (entries : List (String × V)) → IsKept [] entries → length entries ≡ 0
  no_keys [] h = refl
  no_keys ((k, v) ∷ m) h = cc (h.covers k (elem_head k (keys m)))

  Evicts-remove :
      (limit : ℕ) (k : String) (entries : List (String × V)) (b : Bounded V)
      → Evicts limit (remove k entries) b
      → Evicts limit entries b
  Evicts-remove limit k entries b h = record {
    within = h.within;
    kept = h.kept;
    values = λ j. ground (arith, h.values j, lookup-remove k j entries);
  }

  evict-Evicts :
      (limit : ℕ) (order : List String) (entries : List (String × V)) (log : List String)
      → IsKept order entries
      → Evicts limit entries (evict limit order entries log)
  unfolding evict
  evict-Evicts limit [] entries log h = record {
    within = omega (arith, no_keys entries h);
    kept = h;
    values = λ j. inl refl;
  }
  evict-Evicts limit (k ∷ order) entries log h = elim (Bool-cases (ltb limit (length entries))) [
    | inl over ↦ rw over (
        Evicts-remove limit k entries _
          (evict-Evicts limit order (remove k entries) _ (IsKept-evict k order entries h)))
    | inr fits ↦ rw fits (record { within = ground arith; kept = h; values = λ j. inl refl })
  ]

  -- With one key left in the order, the map holds at most one entry.
  one_key :
      (k : String) (entries : List (String × V)) → IsKept (k ∷ []) entries → length entries ≤ 1
  one_key k [] h = omega arith
  one_key k ((i, v) ∷ []) h = omega arith
  one_key k ((i, v) ∷ (j, w) ∷ m) h = ground (
    arith,
    h.covers i (elem_head i (j ∷ keys m)),
    h.covers j (elem_second i j (keys m)),
    h.keys_distinct.0,
    string_eq.beq_iff k i,
    string_eq.beq_iff k j,
    string_eq.beq_iff j i,
  )

  -- The newest key is never the one evicted.
  evict_newest :
      (limit : ℕ) (order : List String) (key : String) (entries : List (String × V))
      (log : List String)
      → 1 ≤ limit
      → IsKept (order ++ key ∷ []) entries
      → lookup key (evict limit (order ++ key ∷ []) entries log).entries ≡ lookup key entries
  unfolding evict
  evict_newest limit [] key entries log l h = ground (arith, one_key key entries h)
  evict_newest limit (k ∷ order) key entries log l h = ground (
    arith,
    evict_newest limit order key (remove k entries)
        (if is_some (lookup k entries) then k ∷ log else log) l
        (IsKept-evict k (order ++ key ∷ []) entries h),
    lookup-remove k key entries,
    string_eq.beq_iff k key,
    h.order_distinct.0,
    elem-append key order (key ∷ []),
    elem-append k order (key ∷ []),
  )

  IsKept-remember :
      (key : String) (v : V) (b : Bounded V)
      → IsWell b
      → IsKept (retain_ne key b.order ++ key ∷ []) (insert key v b.entries)
  IsKept-remember key v b h = record {
    covers = λ j e. ground (
      arith,
      h.covers j,
      elem-keys-insert key j v b.entries,
      elem-append j (retain_ne key b.order) (key ∷ []),
      elem-retain_ne key j b.order,
      string_eq.beq_iff key j,
    );
    keys_distinct = IsDistinct-insert key v b.entries h.keys_distinct;
    order_distinct =
        IsDistinct-concat (retain_ne key b.order) key
          (IsDistinct-retain_ne key b.order h.order_distinct)
          (ground (arith, elem-retain_ne key key b.order, (string_eq.beq_iff key key).1 refl));
  }

  -- Writing an entry into a well-kept cache with room for one at least: the cache stays well kept
  -- and within its limit, the entry written is there, and any other key has the value that it had
  -- or none.
  pub store-Evicts :
      (limit : ℕ) (key : String) (v : V) (b : Bounded V)
      → 1 ≤ limit
      → IsWell b
      → Evicts limit (insert key v b.entries) (store limit key v b)
        × (lookup key (store limit key v b).entries ≡ some v)
  unfolding store remember
  store-Evicts limit key v b l h = (
    evict-Evicts limit _ _ _ (IsKept-remember key v b h),
    evict_newest limit (retain_ne key b.order) key _ _ l (IsKept-remember key v b h)
        ∙ lookup-insert key key v b.entries
        ∙ ground (arith, (string_eq.beq_iff key key).1 refl),
  )

  -- Dropping a key keeps the cache well kept, takes out that key alone, and reports no eviction.
  pub invalidate-IsWell :
      (key : String) (b : Bounded V)
      → IsWell b
      → IsWell (invalidate key b)
        × ((j : String)
            → lookup j (invalidate key b).entries ≡ (if key == j then none else lookup j b.entries))
        × ((invalidate key b).evicted ≡ b.evicted)
  unfolding invalidate
  invalidate-IsWell key b h = (
    record {
      covers = λ j e. ground (
        arith,
        h.covers j,
        ap (elem j) (keys-remove key b.entries),
        elem-retain_ne key j (keys b.entries),
        elem-retain_ne key j b.order,
        string_eq.beq_iff key j,
      );
      keys_distinct =
          rw (keys-remove key b.entries)
            (IsDistinct-retain_ne key (keys b.entries) h.keys_distinct);
      order_distinct = IsDistinct-retain_ne key b.order h.order_distinct;
    },
    λ j. lookup-remove key j b.entries,
    refl,
  )
