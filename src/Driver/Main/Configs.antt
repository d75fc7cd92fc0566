-- ===== src/Driver/Main/Configs.antt =====
-- The configurations that main runs with, from the flags on.
use hlfs.Common.{
  ℕ, suc, ◌*◌, ◌^◌, ◌≤◌, ◌<◌, ◌≡◌, ◌⊎◌, inl, inr, true, false, some, refl, List, [], ◌∷◌, Returns,
  mono,
}
use hlfs.Driver.{Globals}
use hlfs.Driver.Layout.{IsLaidOut}
use hlfs.Driver.Vary.Access.{AreLaidOut, main_job_vary_access_size-AreLaidOut}
use hlfs.Driver.Main.{CommandLine, Nodes, configure, main_jobs}
use hlfs.Driver.Main.Ready.{configure-IsReady}

abbrev pub AllLaidOut : List Globals → Type 0
AllLaidOut [] = Unit
AllLaidOut (g ∷ gs) = IsLaidOut g × AllLaidOut gs

AreLaidOut-AllLaidOut : (k : ℕ) (gs : List Globals) → AreLaidOut k gs → AllLaidOut gs
AreLaidOut-AllLaidOut k [] a = tt
AreLaidOut-AllLaidOut k (g ∷ gs) a = (a.1, AreLaidOut-AllLaidOut (suc k) gs a.2)

-- Where main passes CheckGlobalCfg, and the product of the buffer size and the thread number does
-- not wrap: main goes through laid-out configurations only, if the access size is varied and the
-- buffers have 64 KB or more, or if neither the access size nor the thread number is varied.
pub main_jobs-AllLaidOut :
    (c : CommandLine) (nodes : Nodes) (aep_buf aep_buf_size : ℕ) (g₀ : Globals) {g : Globals}
    → c.buffer_size * c.thread_num < 2 ^ 64
    → configure c nodes aep_buf aep_buf_size g₀ ≡ some g
    → ((c.vary_access_size ≡ true) × (64 * 1024 ≤ g.buffer_size))
      ⊎ ((c.vary_access_size ≡ false) × (c.vary_thread_num ≡ false))
    → Returns AllLaidOut (main_jobs c g)
unfolding main_jobs
main_jobs-AllLaidOut c nodes aep_buf aep_buf_size g₀ {g} small e (inl (vary, least)) =
    let ready = configure-IsReady c nodes aep_buf aep_buf_size g₀ small e in
    rw vary (
      mono
        (main_job_vary_access_size-AreLaidOut g (record {
          whole = ready.laid_out.whole;
          some_threads = ready.some_threads;
          buffers = ready.laid_out.buffers;
          least = least;
        }))
        (λ gs a. AreLaidOut-AllLaidOut 4 gs a))
main_jobs-AllLaidOut c nodes aep_buf aep_buf_size g₀ {g} small e (inr (once, still)) =
    let ready = configure-IsReady c nodes aep_buf aep_buf_size g₀ small e in
    rw (once, still) (g ∷ [], refl, (ready.laid_out, tt))
