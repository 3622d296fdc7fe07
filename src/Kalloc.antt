-- ===== src/Kalloc.antt =====
-- kalloc.c: the free list of physical pages. A page that comes back loses its contents, so a
-- pipe that lived in it is gone.
use xv6_system_calls.Prelude.{
  ℕ, zero, suc, ◌+◌, ◌-◌, ◌*◌, ◌/◌, ◌%◌, ◌≡◌, Bool, ◌||◌, Option, none, some, List, [], ◌∷◌, ltb,
  leb, ◌==◌, not, if◌then◌else◌, update, Outcome, ok, panic, ◌>>=◌, u32_mod,
}
use xv6_system_calls.Kernel.{Kernel}
pub mod FreeList

abbrev pub page_size : ℕ
page_size = 4096

abbrev pub kernbase : ℕ
kernbase = 0x8000_0000

abbrev pub phystop : ℕ
phystop = 0xE00_0000

-- The guard of `kfree`: `(uint)v % PGSIZE || v < end || V2P(v) >= PHYSTOP`.
abbrev pub bad_page : ℕ → ℕ → Bool
bad_page kernel_end v =
    not (v % page_size == 0) || ltb v kernel_end || leb phystop ((v + u32_mod - kernbase) % u32_mod)

-- `PGROUNDUP`, in 32 bits.
abbrev pub round_up : ℕ → ℕ
round_up a = ((a + (page_size - 1)) % u32_mod) / page_size * page_size

take_page : {E : Type 0} → List ℕ → Kernel E → Option ℕ × Kernel E
take_page [] k = (none, k)
take_page (v ∷ rest) k = (some v, record k { free_pages = rest })

module _ {E : Type 0} where
  unfoldable pub kalloc : Kernel E → Option ℕ × Kernel E
  unfolding take_page
  kalloc k = take_page k.free_pages k

  unfoldable pub kfree : ℕ → Kernel E → Outcome (Kernel E)
  kfree v k =
      if bad_page k.kernel_end v
      then panic "kfree"
      else ok (record k { free_pages = v ∷ k.free_pages; pipes = update k.pipes v none })

  -- `kfree` of a pointer that may be null; null is below `end`.
  unfoldable pub kfree_ptr : Option ℕ → Kernel E → Outcome (Kernel E)
  kfree_ptr none k = panic "kfree"
  kfree_ptr (some v) k = kfree v k

  -- `for(; p + PGSIZE <= vend; p += PGSIZE) kfree(p);` in at most `n` rounds.
  pub free_loop : ℕ → ℕ → ℕ → Kernel E → Outcome (Kernel E)
  free_loop zero p vend k = ok k
  free_loop (suc n) p vend k =
      let rest = kfree p k >>= free_loop n (p + page_size) vend in
      if leb (p + page_size) vend then rest else ok k

  -- Addresses below 2^32: `vend / PGSIZE` rounds are enough.
  pub freerange : ℕ → ℕ → Kernel E → Outcome (Kernel E)
  unfolding free_loop
  freerange vstart vend k = free_loop (vend / page_size) (round_up vstart) vend k
