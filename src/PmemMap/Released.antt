-- ===== src/PmemMap/Released.antt =====
-- What mapping a file leaves open.
use hlfs.Common.{ℕ, ◌+◌, ◌≤◌, ◌≡◌, refl, ◌⊎◌, inl, inr, true, false, ◌==◌, arith, Bool-cases}
use hlfs.PmemMap.{
  Resources, Calls, Result, close, open_and_alloc_at_size, open_simple, pmem2_map_from_fd,
  map_and_close, pmem2_map, pmem2_map_and_truncate,
}

-- With a map, one more map is there and nothing else.
pub record Gained (r : Resources) (m : Result) : Type 0 where
  pub ok : m.0 ≡ true
  pub fd : m.1.fds ≡ r.fds
  pub config : m.1.configs ≡ r.configs
  pub source : m.1.sources ≡ r.sources
  pub map : m.1.maps ≡ r.maps + 1

-- Without one, no map is there and no descriptor, but what was made of a configuration and a source
-- stays behind.
pub record Lost (r : Resources) (m : Result) : Type 0 where
  pub ok : m.0 ≡ false
  pub fd : m.1.fds ≡ r.fds
  pub map : m.1.maps ≡ r.maps
  pub left :
      ((m.1.configs ≡ r.configs) × (m.1.sources ≡ r.sources))
      ⊎ ((m.1.configs ≡ r.configs + 1) × (m.1.sources ≤ r.sources + 1))

module _ (calls : Calls) where
  pub pmem2_map_from_fd-cases :
      (r : Resources) → Gained r (pmem2_map_from_fd calls r) ⊎ Lost r (pmem2_map_from_fd calls r)
  unfolding pmem2_map_from_fd
  pmem2_map_from_fd-cases r = elim (Bool-cases (calls.pmem2_config_new r)) [
    | inr e ↦ inr (rw e (record { ok = refl; fd = refl; map = refl; left = inl (refl, refl) }))
    | inl e ↦ ground (arith, e)
  ]

  -- Behind an opened descriptor.
  closed :
      (r u : Resources)
      → u.fds ≡ r.fds + 1
      → u.configs ≡ r.configs
      → u.sources ≡ r.sources
      → u.maps ≡ r.maps
      → Gained r (map_and_close calls (true, u)) ⊎ Lost r (map_and_close calls (true, u))
  closed r u f c s m = elim (pmem2_map_from_fd-cases u) [
    | inl g ↦ inl (record {
      ok = g.ok;
      fd = omega (arith, g.fd);
      config = omega (arith, g.config);
      source = omega (arith, g.source);
      map = omega (arith, g.map);
    })
    | inr l ↦ inr (record {
      ok = l.ok;
      fd = omega (arith, l.fd);
      map = omega (arith, l.map);
      left = omega (arith, l.left);
    })
  ]

  -- Pmem2Map, whichever calls fail, either returns a map, with nothing else left open, or a null
  -- pointer, with no map and no descriptor left open, but perhaps a configuration, or one and a
  -- source.
  pub pmem2_map-cases : (r : Resources) → Gained r (pmem2_map calls r) ⊎ Lost r (pmem2_map calls r)
  unfolding pmem2_map open_simple
  pmem2_map-cases r = elim (Bool-cases (calls.open_simple r)) [
    | inl e ↦ rw e (closed r _ refl refl refl refl)
    | inr e ↦ inr (rw e (record { ok = refl; fd = refl; map = refl; left = inl (refl, refl) }))
  ]

  -- OpenAndAllocAtSize, whichever calls fail, either returns a descriptor, with nothing else
  -- opened, or -1, with all resources as before.
  pub open_and_alloc_at_size-cases :
      (size : ℕ) (r : Resources)
      → (open_and_alloc_at_size calls size r ≡ (true, record r { fds = r.fds + 1 }))
        ⊎ ((u : Resources) × (open_and_alloc_at_size calls size r ≡ (false, u))
            × ((u.fds ≡ r.fds)
                × (u.configs ≡ r.configs)
                × (u.sources ≡ r.sources)
                × (u.maps ≡ r.maps)))
  unfolding open_and_alloc_at_size
  open_and_alloc_at_size-cases size r =
      let r₁ = record r { fds = r.fds + 1 } in
      elim (Bool-cases (calls.open_create r)) [
        | inr e ↦ inr (r, rw e, (refl, refl, refl, refl))
        | inl e ↦ elim (Bool-cases (size == 0)) [
          | inl e₁ ↦ inl (rw (e, e₁))
          | inr e₁ ↦ elim (Bool-cases (calls.ftruncate size r₁)) [
            | inr e₂ ↦ inr (close r₁, rw (e, e₁, e₂), (omega arith, refl, refl, refl))
            | inl e₂ ↦ elim (Bool-cases (calls.posix_fallocate size r₁)) [
              | inr e₃ ↦ inr (close r₁, rw (e, e₁, e₂, e₃), (omega arith, refl, refl, refl))
              | inl e₃ ↦ inl (rw (e, e₁, e₂, e₃))
            ]
          ]
        ]
      ]

  -- Pmem2MapAndTruncate, whichever calls fail, the allocation included, either returns a map, with
  -- nothing else left open, or a null pointer, with no map and no descriptor left open, but
  -- perhaps a configuration, or one and a source.
  pub pmem2_map_and_truncate-cases :
      (size : ℕ) (r : Resources)
      → Gained r (pmem2_map_and_truncate calls size r)
        ⊎ Lost r (pmem2_map_and_truncate calls size r)
  unfolding pmem2_map_and_truncate
  pmem2_map_and_truncate-cases size r = elim (open_and_alloc_at_size-cases size r) [
    | inl e ↦ rw e (closed r _ refl refl refl refl)
    | inr (u, e, (f, c, s, m)) ↦
        inr (rw e (record { ok = refl; fd = f; map = m; left = inl (c, s) }))
  ]
