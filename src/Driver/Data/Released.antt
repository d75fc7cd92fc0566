-- ===== src/Driver/Data/Released.antt =====
-- A study releases what it maps, but for the descriptor of its report.
use mathlib.Core.Option.{some-injective}
use mathlib.Core.Path.{subst}
use hlfs.Common.{
  ℕ, zero, suc, ◌+◌, ◌-◌, ◌*◌, ◌≡◌, refl, ◌∙◌, inl, inr, Bool, true, Option, none, some, List, [],
  ◌∷◌, if◌then◌else◌, arith, false, length, Bool-cases, Returns, bind, mono, ◌==◌, bind_inv,
}
use hlfs.PmemMap.{
  Resources, Calls, close, open_simple, open_and_alloc_at_size, pmem2_map_from_fd, pmem2_map,
  pmem2_un_map,
}
use hlfs.PmemMap.Released.{pmem2_map_from_fd-cases, pmem2_map-cases, open_and_alloc_at_size-cases}
use hlfs.Driver.Report.{Io, stdout, print, fclose, report, report_sub_ops-stdout, destroy_report}
use hlfs.Driver.Data.{run_data, init_run_data, destroy_run_data, run_rounds, study}

-- `n` more maps are there and nothing else.
pub record Holds (n : ℕ) (r u : Resources) : Type 0 where
  pub fd : u.fds ≡ r.fds
  pub config : u.configs ≡ r.configs
  pub source : u.sources ≡ r.sources
  pub map : u.maps ≡ r.maps + n

module _ (calls : Calls) where
  if_inv :
      (b : Bool) (m : Option Resources) {u : Resources}
      → (if b then m else none) ≡ some u
      → (b ≡ true) × (m ≡ some u)
  if_inv b m e = ground (arith, e)

  run_data-Holds :
      (iters : ℕ) (r : Resources) {u : Resources} → run_data calls iters r ≡ some u → Holds 1 r u
  unfolding run_data
  run_data-Holds iters r {u} e = elim (open_and_alloc_at_size-cases calls (iters * 4) r) [
    | inr (v, opened, same) ↦ ground (arith, rw opened at e)
    | inl opened ↦
        let e' = rw opened at e in
        let r₁ : Resources = record r { fds = r.fds + 1 } in
        let (mapped, closed) = if_inv (pmem2_map_from_fd calls r₁).0 _ e' in
        elim (pmem2_map_from_fd-cases calls r₁) [
          | inr l ↦ ground (arith, mapped, l.ok)
          | inl g ↦ subst (Holds 1 r) (some-injective _ _ closed) (record {
            fd = omega (arith, g.fd);
            config = g.config;
            source = g.source;
            map = g.map;
          })
        ]
  ]

  init_run_data-Holds :
      (n iters : ℕ) (r : Resources) {u : Resources}
      → init_run_data calls n iters r ≡ some u
      → Holds n r u
  unfolding init_run_data
  init_run_data-Holds zero iters r e =
      subst (Holds 0 r) (some-injective _ _ e)
        (record { fd = refl; config = refl; source = refl; map = omega arith })
  init_run_data-Holds (suc n) iters r e =
      let (v, first, others) = bind_inv (run_data calls iters r) _ e in
      let a = run_data-Holds iters r first in
      let b = init_run_data-Holds n iters v others in
      record {
        fd = b.fd ∙ a.fd;
        config = b.config ∙ a.config;
        source = b.source ∙ a.source;
        map = omega (arith, a.map, b.map);
      }

  -- The calls of the system and of pmem2 succeed.
  pub record IsWorking : Type 0 where
    pub created : (r : Resources) → calls.open_create r ≡ true
    pub opened : (r : Resources) → calls.open_simple r ≡ true
    pub truncated : (n : ℕ) (r : Resources) → calls.ftruncate n r ≡ true
    pub allocated : (n : ℕ) (r : Resources) → calls.posix_fallocate n r ≡ true
    pub config : (r : Resources) → calls.pmem2_config_new r ≡ true
    pub source : (r : Resources) → calls.pmem2_source_from_fd r ≡ true
    pub granularity : (r : Resources) → calls.pmem2_config_set_required_store_granularity r ≡ true
    pub map_new : (r : Resources) → calls.pmem2_map_new r ≡ true
    pub map_delete : (r : Resources) → calls.pmem2_map_delete r ≡ true

  module _ (works : IsWorking) where
    maps_fd : (r : Resources) → (pmem2_map_from_fd calls r).0 ≡ true
    unfolding pmem2_map_from_fd
    maps_fd r =
        let r₁ : Resources = record r { configs = r.configs + 1 } in
        let r₂ : Resources = record r₁ { sources = r.sources + 1 } in
        rw (works.config r, works.source r₁, works.granularity r₂, works.map_new r₂) refl

    opens :
        (size : ℕ) (r : Resources)
        → open_and_alloc_at_size calls size r ≡ (true, record r { fds = r.fds + 1 })
    unfolding open_and_alloc_at_size
    opens size r =
        let r₁ : Resources = record r { fds = r.fds + 1 } in
        elim (Bool-cases (size == 0)) [
          | inl e ↦ rw (works.created r, e) refl
          | inr e ↦ rw (works.created r, e, works.truncated size r₁, works.allocated size r₁) refl
        ]

    run_data-runs :
        (iters : ℕ) (r : Resources)
        → run_data calls iters r
          ≡ some (close (pmem2_map_from_fd calls (record r { fds = r.fds + 1 })).1)
    unfolding run_data
    run_data-runs iters r = rw (opens (iters * 4) r, maps_fd (record r { fds = r.fds + 1 })) refl

    init_run_data-returns :
        (n iters : ℕ) (r : Resources) → Returns {0, 0} (λ u. Unit) (init_run_data calls n iters r)
    unfolding init_run_data
    init_run_data-returns zero iters r = (r, refl, tt)
    init_run_data-returns (suc n) iters r =
        rw (run_data-runs iters r) (init_run_data-returns n iters _)

    maps : (r : Resources) → (pmem2_map calls r).0 ≡ true
    unfolding pmem2_map open_simple
    maps r = rw (works.opened r, maps_fd (record r { fds = r.fds + 1 })) refl

    destroy_run_data-Holds :
        (n k : ℕ) (r u : Resources) → Holds (n + k) r u → Holds k r (destroy_run_data calls n u)
    unfolding destroy_run_data pmem2_un_map
    destroy_run_data-Holds zero k r u h = record {
      fd = h.fd;
      config = h.config;
      source = h.source;
      map = omega (arith, h.map);
    }
    destroy_run_data-Holds (suc n) k r u h = rw (works.map_delete u) (
        destroy_run_data-Holds n k r (record u { maps = u.maps - 1 })
          (record { fd = h.fd; config = h.config; source = h.source; map = omega (arith, h.map) }))

    un_map-Holds : (r u : Resources) → Holds 1 r u → Holds 0 r (pmem2_un_map calls u)
    unfolding pmem2_un_map
    un_map-Holds r u h =
        rw (works.map_delete u)
          (record { fd = h.fd; config = h.config; source = h.source; map = omega (arith, h.map) })

    -- The rounds print `ops` lines each.
    run_rounds-Holds :
        (ops : ℕ) (ns : List (ℕ × ℕ)) (k : ℕ) (r : Resources) (io : Io)
        → Holds k r io.open_ones
        → Returns
            (λ u.
              Holds k r u.open_ones
              × (u.on_stdout ≡ io.on_stdout + length ns * ops)
              × (u.stdout_open ≡ io.stdout_open)
              × (u.in_file ≡ io.in_file))
            (run_rounds calls ops ns (record { report_fd = true; report_fp = stdout }) io)
    unfolding run_rounds length
    run_rounds-Holds ops [] k r io h = (io, refl, (h, omega arith, refl, refl))
    run_rounds-Holds ops (n ∷ ns) k r io h =
        let (w, e, unit) = init_run_data-returns n.0 n.1 io.open_ones in
        let a = init_run_data-Holds n.0 n.1 io.open_ones e in
        let printed =
          report_sub_ops-stdout ops (io.on_stdout + ops) true (record io { open_ones = w }) refl in
        let released = destroy_run_data-Holds n.0 k r w (record {
          fd = a.fd ∙ h.fd;
          config = a.config ∙ h.config;
          source = a.source ∙ h.source;
          map = omega (arith, a.map, h.map);
        }) in
        rw (e, printed)
          (mono
            (run_rounds-Holds ops ns k r
              (record io {
                open_ones = destroy_run_data calls n.0 w;
                on_stdout = io.on_stdout + ops;
              })
              released)
            λ u q. (q.0, omega (arith, q.1), q.2, q.3))

    -- What is left of a study: the lines of its report, and a descriptor.
    pub record Left (lines : ℕ) (io u : Io) : Type 0 where
      pub fd : u.open_ones.fds ≡ io.open_ones.fds + 1
      pub config : u.open_ones.configs ≡ io.open_ones.configs
      pub source : u.open_ones.sources ≡ io.open_ones.sources
      pub map : u.open_ones.maps ≡ io.open_ones.maps
      pub printed : u.on_stdout ≡ io.on_stdout + lines
      pub in_file : u.in_file ≡ io.in_file + 12
      pub closed : u.stdout_open ≡ false

    -- Where the calls of the system and of pmem2 succeed, what main maps, its report and what its
    -- rounds map, any rounds with `ops` operations each, come to their end with as many
    -- configurations, sources and maps as before, and with one more descriptor, which is that of
    -- the report. A line for each operation of each round has gone to stdout, which is closed, and
    -- 12 lines to the file.
    pub study-Left :
        (ops : ℕ) (ns : List (ℕ × ℕ)) (io : Io)
        → Returns (Left (length ns * ops) io) (study calls ops ns io)
    unfolding study report destroy_report fclose print
    study-Left ops ns io = elim (pmem2_map-cases calls io.open_ones) [
      | inr l ↦ ground (arith, l.ok, maps io.open_ones)
      | inl g ↦
          let m : Resources = (pmem2_map calls io.open_ones).1 in
          let opened : Io = record io {
            open_ones = record m { fds = m.fds + 1 };
            in_file = io.in_file + 12;
          } in
          let before : Resources = record io.open_ones { fds = io.open_ones.fds + 1 } in
          rw (maps io.open_ones, opens 0 m)
            (bind
              (run_rounds-Holds ops ns 1 before opened (record {
                fd = omega (arith, g.fd);
                config = g.config;
                source = g.source;
                map = g.map;
              }))
              λ u q.
                let h = un_map-Holds before u.open_ones q.0 in
                (
                  _,
                  refl,
                  record {
                    fd = h.fd;
                    config = h.config;
                    source = h.source;
                    map = omega (arith, h.map);
                    printed = q.1;
                    in_file = q.3;
                    closed = refl;
                  },
                ))
    ]
