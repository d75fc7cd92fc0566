-- ===== src/Aep/Native/Bytes.antt =====
-- `memcpy` and `memset` inside a larger write.
use hlfs.Common.{
  ℕ, zero, suc, ◌+◌, ◌%◌, ◌≤◌, ◌≡◌, refl, Option, none, some, arith, Returns, bind, ◌>>=◌,
}
use hlfs.Machine.{State, load, store}
use hlfs.Machine.Wrote.{Mapped, Wrote, Wrote-store}
use hlfs.Instr.Copies.{IsCopy, Copied}
use hlfs.Aep.Small.{one_word-Copied}
use hlfs.Aep.{one_word}
use hlfs.Aep.Native.{memcpy, memset}

-- The byte of a fill.
abbrev pub FillByte : ℕ → ℕ → ℕ → Type 0
FillByte c x b = b ≡ c % 256

word_then :
    {Q : State → Type 0} (s : State) (d f : ℕ) (k : State → Option State)
    → Returns Q (one_word 1 d f s >>= k)
    → Returns Q (load f 1 s >>= λ b. store d 1 b s >>= k)
word_then {Q} s d f k r =
    (elim (load f 1 s)
        as (λ o.
          Returns Q ((o >>= λ b. store d 1 b s) >>= k)
          → Returns Q (o >>= λ b. store d 1 b s >>= k)) [ none ↦ λ r. r | some b ↦ λ r. r ])
      r

-- The pointers and the end are variables, so that the recursion can move them.
module _ {s₀ : State} {dest src total : ℕ} (lo hi : ℕ) (job : IsCopy s₀ dest src total) where
  pub memcpy_from :
      (n off d f e : ℕ) {s : State}
      → d ≡ dest + off
      → f ≡ src + off
      → e ≡ off + n
      → Copied s₀ dest src lo hi off s
      → e ≤ total
      → lo ≤ d
      → dest + e ≤ hi
      → Returns (Copied s₀ dest src lo hi e) (memcpy d f n s)
  unfolding memcpy
  memcpy_from zero off d f e {s} p q r w room l h =
      let same : off ≡ e = omega arith in (s, refl, rw same at w)
  memcpy_from (suc n) off d f e {s} p q r w room l h =
      let one : Returns (Copied s₀ dest src lo hi (off + 1)) (one_word 1 d f s) =
        rw (p, q)
          (one_word-Copied job w 1 (omega arith) (omega arith) (omega arith) (omega arith)) in
      word_then s d f (memcpy (d + 1) (f + 1) n) (
        bind one λ t w'.
          memcpy_from n (off + 1) (d + 1) (f + 1) e (omega arith) (omega arith) (omega arith) w'
            room (omega arith) h)

  pub memcpy-Copied :
      (n off : ℕ) {s : State}
      → Copied s₀ dest src lo hi off s
      → off + n ≤ total
      → lo ≤ dest + off
      → dest + off + n ≤ hi
      → Returns (Copied s₀ dest src lo hi (off + n)) (memcpy (dest + off) (src + off) n s)
  memcpy-Copied n off w room l h =
      memcpy_from n off _ _ (off + n) refl refl refl w room l (omega arith)

module _ {s₀ : State} {dest total : ℕ} (lo hi c : ℕ) (to : Mapped s₀ dest total) where
  pub memset_from :
      (n off d e : ℕ) {s : State}
      → d ≡ dest + off
      → e ≡ off + n
      → Wrote (FillByte c) s₀ dest lo hi off s
      → e ≤ total
      → lo ≤ d
      → dest + e ≤ hi
      → Returns (Wrote (FillByte c) s₀ dest lo hi e) (memset d c n s)
  unfolding memset
  memset_from zero off d e {s} p r w room l h =
      let same : off ≡ e = omega arith in (s, refl, rw same at w)
  memset_from (suc n) off d e {s} p r w room l h =
      bind
        (Wrote-store d 1 (off + 1) (λ j. c % 256) w (λ x a b. to x (omega arith) (omega arith))
          (omega arith) (omega arith) (omega arith) (omega arith) (omega arith) (λ x a b. refl) l
          (omega arith))
        λ t q. memset_from n (off + 1) (d + 1) e (omega arith) (omega arith) q room (omega arith) h

  pub memset-Wrote :
      (n off : ℕ) {s : State}
      → Wrote (FillByte c) s₀ dest lo hi off s
      → off + n ≤ total
      → lo ≤ dest + off
      → dest + off + n ≤ hi
      → Returns (Wrote (FillByte c) s₀ dest lo hi (off + n)) (memset (dest + off) c n s)
  memset-Wrote n off w room l h = memset_from n off _ (off + n) refl refl w room l (omega arith)
