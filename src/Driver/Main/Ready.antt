-- ===== src/Driver/Main/Ready.antt =====
-- What is true of the globals when CheckGlobalCfg has accepted them.
use mathlib.Core.Option.{some-injective, none-ne-some}
use mathlib.Core.Path.{subst}
use hlfs.Common.{
  bind_inv, ℕ, zero, suc, ◌*◌, ◌/◌, ◌^◌, ◌≤◌, ◌<◌, ◌≡◌, refl, ap, inl, inr, Bool, true, false, ◌&&◌,
  Option, none, some, List, [], ◌∷◌, ◌++◌, ◌==◌, ltb, if◌then◌else◌, arith, Bool-cases,
}
use hlfs.Driver.{
  Globals, core_num, collect_core_ids, validate_core_ids, validate_thread_num, validate_iters,
  max_core_id, max_thread_num, init_global_cfg, init_global_cfg_first, check_global_cfg,
}
use hlfs.Driver.Layout.{IsLaidOut, check_global_cfg-IsChecked, check_global_cfg-IsLaidOut}
use hlfs.Bits.{bit_fls}
use hlfs.Driver.Names.{validate_rw_type, validate_access_mode}
use hlfs.Driver.Main.{CommandLine, Nodes, parse_and_validate_flags, flags_of, configure}

-- Ids that ascend, from `lo` to below `hi`.
abbrev pub Ascending : (lo hi : ℕ) → List ℕ → Type 0
Ascending lo hi [] = Unit
Ascending lo hi (id ∷ ids) = (lo ≤ id) × (id < hi) × Ascending (suc id) hi ids

Ascending-append :
    (lo hi id : ℕ) (ids : List ℕ)
    → Ascending lo hi ids
    → lo ≤ id
    → hi ≤ id
    → Ascending lo (suc id) (ids ++ (id ∷ []))
Ascending-append lo hi id [] a below above = (below, omega arith, tt)
Ascending-append lo hi id (x ∷ ids) (l, h, a) below above =
    (l, omega arith, Ascending-append (suc x) hi id ids a (omega arith) above)

Ascending-below :
    (lo hi hi' : ℕ) (ids : List ℕ) → hi ≤ hi' → Ascending lo hi ids → Ascending lo hi' ids
Ascending-below lo hi hi' [] le a = tt
Ascending-below lo hi hi' (x ∷ ids) le (l, h, a) =
    (l, omega arith, Ascending-below (suc x) hi hi' ids le a)

pair_inv :
    {a b : Bool} {s t : List ℕ}
    → ◌≡◌ {A = Option (Bool × List ℕ)} (some (a, s)) (some (b, t))
    → (a ≡ b) × (s ≡ t)
pair_inv e = let p = some-injective _ _ e in (ap (λ r. r.0) p, ap (λ r. r.1) p)

-- The cores that ValidateCoreIds accepts.
abbrev pub AreCores : List ℕ → Type 0
AreCores ids = (0 < core_num ids) × Ascending 0 (suc max_core_id) ids

collect_core_ids-AreCores :
    (isset : ℕ → Bool) (n i hi : ℕ) (ids : List ℕ) {ids' : List ℕ}
    → Ascending 0 hi ids
    → hi ≤ i
    → hi ≤ suc max_core_id
    → collect_core_ids isset n i ids ≡ some (true, ids')
    → AreCores ids'
unfolding collect_core_ids
collect_core_ids-AreCores isset zero i hi ids {ids'} a le small e =
    let (some_ids, same) = pair_inv e in
    subst AreCores same (ground (arith, some_ids), Ascending-below 0 hi _ ids small a)
collect_core_ids-AreCores isset (suc n) i hi ids a le small e = elim (Bool-cases (isset i)) [
  | inr off ↦
      collect_core_ids-AreCores isset n (suc i) hi ids a (omega arith) small
        (rw (off, collect_core_ids) at e)
  | inl on ↦ elim (Bool-cases (ltb max_core_id i)) [
    | inl high ↦
        let (f, same) = pair_inv (rw (on, high, collect_core_ids) at e) in ground (arith, f)
    | inr low ↦ elim (Bool-cases (ltb (core_num ids) max_thread_num)) [
      | inr full ↦ absurd (none-ne-some _ (rw (on, low, full, collect_core_ids) at e))
      | inl room ↦
          collect_core_ids-AreCores isset n (suc i) (suc i) (ids ++ (i ∷ []))
            (Ascending-append 0 hi i ids a (omega arith) le) (omega arith) (ground (arith, low))
            (rw (on, low, room, collect_core_ids) at e)
    ]
  ]
]

if_inv :
    {A : Type 0} (b : Bool) (m : Option A) {a : A}
    → (if b then m else none) ≡ some a
    → (b ≡ true) × (m ≡ some a)
if_inv true m e = (refl, e)
if_inv false m e = absurd (none-ne-some _ e)

validate_core_ids-AreCores :
    (max_cpus : ℕ) (parsed : Option (ℕ → Bool)) {ids : List ℕ}
    → validate_core_ids max_cpus parsed ≡ some (true, ids)
    → AreCores ids
unfolding validate_core_ids
validate_core_ids-AreCores max_cpus none e = ground (arith, (pair_inv e).0)
validate_core_ids-AreCores max_cpus (some isset) e =
    collect_core_ids-AreCores isset max_cpus 0 0 [] tt (omega arith) (omega arith) e

accepted-AreCores :
    (max_cpus : ℕ) (parsed : Option (ℕ → Bool)) (r : Bool × List ℕ) {ids : List ℕ}
    → validate_core_ids max_cpus parsed ≡ some r
    → (if r.0 then some r.1 else none) ≡ some ids
    → AreCores ids
accepted-AreCores max_cpus parsed (true, ids') e kept =
    subst AreCores (some-injective _ _ kept) (validate_core_ids-AreCores max_cpus parsed e)
accepted-AreCores max_cpus parsed (false, ids') e kept = absurd (none-ne-some _ kept)

parse_and_validate_flags-AreCores :
    (c : CommandLine) (nodes : Nodes) {ids : List ℕ}
    → parse_and_validate_flags c nodes ≡ some ids
    → (c.thread_num < 32) × (0 < c.iters) × AreCores ids
unfolding parse_and_validate_flags validate_thread_num validate_iters
parse_and_validate_flags-AreCores c nodes e =
    let (valid, rest) =
      if_inv
        (validate_thread_num c.thread_num
          && (validate_rw_type c.rw_type
              && (validate_access_mode c.access_mode && validate_iters c.iters)))
        _ e in
    let (r, ran, kept) = bind_inv (validate_core_ids nodes.max_cpus nodes.parsed) _ rest in
    (
      ground (arith, valid),
      ground (arith, valid),
      accepted-AreCores nodes.max_cpus nodes.parsed r ran kept,
    )

-- What main may rely on behind CheckGlobalCfg.
pub record IsReady (g : Globals) : Type 0 where
  pub laid_out : IsLaidOut g
  pub some_threads : 0 < g.thread_num
  pub threads : g.thread_num < 32
  pub some_iters : 0 < g.iters
  pub each_core : core_num g.core_ids ≡ g.thread_num
  pub cores : Ascending 0 80 g.core_ids

-- InitGlobalCfg keeps what it does not compute.
record Keeps (g g' : Globals) : Type 0 where
  thread_num : g'.thread_num ≡ g.thread_num
  buffer_size : g'.buffer_size ≡ g.buffer_size
  iters : g'.iters ≡ g.iters
  core_ids : g'.core_ids ≡ g.core_ids

init_global_cfg-Keeps : (g : Globals) {g' : Globals} → init_global_cfg g ≡ some g' → Keeps g g'
unfolding init_global_cfg
init_global_cfg-Keeps g e = elim (Bool-cases (g.access_size == 0)) [
  | inl z ↦ ground (arith, e, z)
  | inr z ↦
      let (k, found, rest) = bind_inv (bit_fls (g.buffer_size / g.access_size)) _ (rw z at e) in
      let (b, found', last) = bind_inv (bit_fls g.access_size) _ rest in
      subst (Keeps g) (some-injective _ _ last)
        (record { thread_num = refl; buffer_size = refl; iters = refl; core_ids = refl })
]

check_global_cfg-same :
    (max_node : ℕ) (node_of_cpu : ℕ → ℕ) (g : Globals) {g' : Globals}
    → check_global_cfg max_node node_of_cpu g ≡ some g'
    → g ≡ g'
unfolding check_global_cfg
check_global_cfg-same max_node node_of_cpu g e = ground (arith, e)

-- Where main passes CheckGlobalCfg, and the product of the buffer size and the thread number does
-- not wrap: the configuration is laid out, there are 1 to 31 threads, with a core each, in
-- ascending order and up to 79, and at least one iteration.
pub configure-IsReady :
    (c : CommandLine) (nodes : Nodes) (aep_buf aep_buf_size : ℕ) (g₀ : Globals) {g : Globals}
    → c.buffer_size * c.thread_num < 2 ^ 64
    → configure c nodes aep_buf aep_buf_size g₀ ≡ some g
    → IsReady g
unfolding configure init_global_cfg_first flags_of
configure-IsReady c nodes aep_buf aep_buf_size g₀ {g} small e =
    let (ids, parsed, e₁) = bind_inv (parse_and_validate_flags c nodes) _ e in
    let (g₁, made, checked) =
      bind_inv
        (init_global_cfg_first (flags_of c) aep_buf aep_buf_size (record g₀ { core_ids = ids })) _
        e₁ in
    let (few, iters, cores) = parse_and_validate_flags-AreCores c nodes parsed in
    let k = init_global_cfg-Keeps _ made in
    let seen = check_global_cfg-IsChecked nodes.max_node nodes.node_of_cpu g₁ checked in
    let fits : g₁.buffer_size * g₁.thread_num < 2 ^ 64 = rw (k.buffer_size, k.thread_num) small in
    subst IsReady (check_global_cfg-same nodes.max_node nodes.node_of_cpu g₁ checked) (record {
      laid_out = check_global_cfg-IsLaidOut nodes.max_node nodes.node_of_cpu _ g₁ made checked fits;
      some_threads = omega (arith, seen.cores, ap core_num k.core_ids, cores.0);
      threads = omega (arith, k.thread_num, few);
      some_iters = omega (arith, k.iters, iters);
      each_core = seen.cores;
      cores = rw k.core_ids cores.1;
    })
