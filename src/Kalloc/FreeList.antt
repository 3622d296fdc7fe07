-- ===== src/Kalloc/FreeList.antt =====
-- The free list of kalloc.c holds whole pages, and `kfree` and `kalloc` work as a stack.
use xv6_system_calls.Prelude.{
  ℕ, zero, suc, ◌+◌, ◌-◌, ◌*◌, ◌/◌, ◌%◌, ◌≤◌, ◌<◌, ◌≡◌, refl, false, none, Option, some, none, List,
  [], ◌∷◌, arith, ok, Bool-cases, inl, inr, update, u32_mod, le→leb,
}
use xv6_system_calls.Kernel.{Kernel}
use xv6_system_calls.Kalloc.{
  page_size, kernbase, phystop, bad_page, kalloc, kfree, kfree_ptr, free_loop, freerange, round_up,
}

-- A page that the allocator may hand out: aligned, above the kernel, in physical memory.
pub record IsPage (kernel_end v : ℕ) : Type 0 where
  pub aligned : v % page_size ≡ 0
  pub above_kernel : kernel_end ≤ v
  pub above_base : kernbase ≤ v
  pub below_top : v < kernbase + phystop

abbrev pub AllPages : ℕ → List ℕ → Type 0
AllPages e [] = Unit {0}
AllPages e (v ∷ vs) = IsPage e v × AllPages e vs

IsPage→good : (e v : ℕ) → IsPage e v → bad_page e v ≡ false
IsPage→good e v h = ground arith

good→IsPage : (e v : ℕ) → v < u32_mod → bad_page e v ≡ false → IsPage e v
good→IsPage e v small h = ground arith

-- The pages `p`, `p + PGSIZE`, ..., `n` of them, pushed one after the other on a list.
pub push_pages : ℕ → ℕ → List ℕ → List ℕ
push_pages zero p pages = pages
push_pages (suc n) p pages = push_pages n (p + page_size) (p ∷ pages)

push_pages-AllPages :
    (e n p : ℕ) (pages : List ℕ)
    → p % page_size ≡ 0
    → e ≤ p
    → kernbase ≤ p
    → p + n * page_size ≤ kernbase + phystop
    → AllPages e pages
    → AllPages e (push_pages n p pages)
unfolding push_pages
push_pages-AllPages e zero p pages a b c d all = all
push_pages-AllPages e (suc n) p pages a b c d all =
    push_pages-AllPages e n (p + page_size) (p ∷ pages) (omega arith) (omega arith) (omega arith)
      (omega arith) (omega arith, all)

module _ {E : Type 0} where
  pub kalloc-cons :
      (v : ℕ) (rest : List ℕ) (k : Kernel E)
      → k.free_pages ≡ v ∷ rest
      → kalloc k ≡ (some v, record k { free_pages = rest })
  unfolding kalloc
  kalloc-cons v rest k e = rw e

  pub kalloc-nil : (k : Kernel E) → k.free_pages ≡ [] → kalloc k ≡ (none, k)
  unfolding kalloc
  kalloc-nil k e = rw e

  pub kfree-good :
      (v : ℕ) (k : Kernel E)
      → IsPage k.kernel_end v
      → kfree v k ≡ ok (record k { free_pages = v ∷ k.free_pages; pipes = update k.pipes v none })
  unfolding kfree
  kfree-good v k h = rw (IsPage→good k.kernel_end v h)

  kfree-cases :
      (v : ℕ) (k k' : Kernel E)
      → kfree v k ≡ ok k'
      → (bad_page k.kernel_end v ≡ false) × (k'.free_pages ≡ v ∷ k.free_pages)
  unfolding kfree
  kfree-cases v k k' h = elim (Bool-cases (bad_page k.kernel_end v)) [
    | inl bad ↦ absurd (ground arith)
    | inr good ↦ (good, ground arith)
  ]

  pub kfree_ptr-procs :
      (v : Option ℕ) (k k' : Kernel E) → kfree_ptr v k ≡ ok k' → k'.procs ≡ k.procs
  unfolding kfree_ptr kfree
  kfree_ptr-procs none k k' h = cc
  kfree_ptr-procs (some v) k k' h = ground arith

  -- An address that `kfree` accepts is aligned to a page, and between the kernel's end and
  -- PHYSTOP; `kalloc` hands it out next, and leaves the free list as it was before.
  kalloc-kfree :
      (v : ℕ) (k k' : Kernel E)
      → v < u32_mod
      → kfree v k ≡ ok k'
      → IsPage k.kernel_end v × ((kalloc k').0 ≡ some v) × ((kalloc k').1.free_pages ≡ k.free_pages)
  unfolding kalloc
  kalloc-kfree v k k' small h =
      let (good, pages) = kfree-cases v k k' h in
      (good→IsPage k.kernel_end v small good, ground arith, ground arith)

  free_loop-push_pages :
      (n m p vend : ℕ) (k : Kernel E)
      → p % page_size ≡ 0
      → k.kernel_end ≤ p
      → kernbase ≤ p
      → p + m * page_size ≤ vend
      → vend < p + (m + 1) * page_size
      → vend ≤ kernbase + phystop
      → m ≤ n
      → (k' : Kernel E) × (free_loop n p vend k ≡ ok k')
        × (k'.free_pages ≡ push_pages m p k.free_pages)
        × (k'.kernel_end ≡ k.kernel_end)
  unfolding free_loop push_pages
  free_loop-push_pages zero zero p vend k a b c d f g h = (k, refl, refl, refl)
  free_loop-push_pages (suc n) zero p vend k a b c d f g h = (k, ground arith, refl, refl)
  free_loop-push_pages zero (suc m) p vend k a b c d f g h = absurd (omega arith)
  free_loop-push_pages (suc n) (suc m) p vend k a b c d f g h =
      let k1 : Kernel E = record k {
        free_pages = p ∷ k.free_pages;
        pipes = update k.pipes p none;
      } in
      let room : p + page_size ≤ vend = omega arith in
      let (k', run, pages, same) =
        free_loop-push_pages n m (p + page_size) vend k1 (omega arith) (omega arith) (omega arith)
          (omega arith) (omega arith) g (omega arith) in
      (k', rw (kfree-good p k (omega arith), le→leb _ _ room) run, pages, same)

  -- For bounds between the kernel's end and PHYSTOP, `freerange` does not panic: it puts each
  -- whole page between them on the free list, the last one on top, and only whole pages are then
  -- on the list, if that was so before.
  freerange-push_pages :
      (vstart vend : ℕ) (k : Kernel E)
      → k.kernel_end ≤ vstart
      → kernbase ≤ vstart
      → vstart ≤ vend
      → round_up vstart ≤ vend
      → vend ≤ kernbase + phystop
      → AllPages k.kernel_end k.free_pages
      → (k' : Kernel E) × (freerange vstart vend k ≡ ok k')
        × (k'.free_pages
            ≡ push_pages ((vend - round_up vstart) / page_size) (round_up vstart) k.free_pages)
        × AllPages k.kernel_end k'.free_pages
  unfolding freerange
  freerange-push_pages vstart vend k a b l c d all =
      let m : ℕ = (vend - round_up vstart) / page_size in
      let p : ℕ = round_up vstart in
      let (k', run, pages, same) =
        free_loop-push_pages (vend / page_size) m p vend k (omega arith) (omega arith) (omega arith)
          (omega arith) (omega arith) d (omega arith) in
      (
        k',
        run,
        pages,
        rw pages (
            push_pages-AllPages k.kernel_end m p k.free_pages (omega arith) (omega arith)
              (omega arith) (omega arith) all),
      )
