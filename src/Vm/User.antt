-- ===== src/Vm/User.antt =====
-- The user part of a page table: `setupkvm`, `inituvm`, `allocuvm`, `copyuvm`,
-- `clearpteu`, `uva2ka` and `copyout` of vm.c. `kmap` is the table of the kernel's mappings.
use xv6_system_calls.Prelude.{
  ℕ, zero, suc, ◌+◌, ◌-◌, ◌/◌, ◌%◌, Bool, true, false, not, Option, none, some, List, [], ◌∷◌, ◌==◌,
  ltb, leb, if◌then◌else◌, u32_mod, length, take, drop, Outcome, ok, panic, ◌>>=◌,
}
use xv6_system_calls.Kalloc.{page_size, kernbase, phystop, round_up, kalloc}
use xv6_system_calls.Fs.Content.{copy_to, min}
use xv6_system_calls.Vm.{
  Machine, pte_w, pte_u, v2p, p2v, round_down, present, user, pte_addr, pte_flags, set_frame,
  get_entry, set_entry, clear_page, free_page, walkpgdir, mappages, deallocuvm, freevm,
}

-- `struct kmap`
pub record Kmap : Type 0 where
  pub virt : ℕ
  pub phys_start : ℕ
  pub phys_end : ℕ
  pub perm : ℕ

-- `kmap`, for the address `data` that the linker gives.
abbrev pub kernel_maps : ℕ → List Kmap
kernel_maps kdata =
    record { virt = kernbase; phys_start = 0; phys_end = 0x10_0000; perm = pte_w }
    ∷ record { virt = 0x8010_0000; phys_start = 0x10_0000; phys_end = v2p kdata; perm = 0 }
    ∷ record { virt = kdata; phys_start = v2p kdata; phys_end = phystop; perm = pte_w }
    ∷ record { virt = 0xFE00_0000; phys_start = 0xFE00_0000; phys_end = 0; perm = pte_w }
    ∷ []

module _ {F : Type 0} where
  -- `freevm` on the error paths of `setupkvm` and `copyuvm`.
  unfoldable pub give_up : ℕ → Machine F → Outcome (Option ℕ × Machine F)
  give_up pgdir k = do k ← freevm (some pgdir) k; ok (none, k)

  -- The loop of `setupkvm` over `kmap`.
  unfoldable pub map_kernel : ℕ → List Kmap → Machine F → Outcome (Option ℕ × Machine F)
  unfolding give_up
  map_kernel pgdir [] k = ok (some pgdir, k)
  map_kernel pgdir (m ∷ ms) k = do
    (mapped, k) ←
        mappages pgdir m.virt ((m.phys_end + u32_mod - m.phys_start) % u32_mod) m.phys_start m.perm
          k
    if mapped then map_kernel pgdir ms k else give_up pgdir k

module _ {F : Type 0} (kmap : List Kmap) where
  unfoldable pub new_pgdir : Option ℕ × Machine F → Outcome (Option ℕ × Machine F)
  new_pgdir (none, k) = ok (none, k)
  new_pgdir (some pgdir, k) = map_kernel pgdir kmap (clear_page pgdir k)

  unfoldable pub setupkvm : Machine F → Outcome (Option ℕ × Machine F)
  unfolding new_pgdir
  setupkvm k = new_pgdir (kalloc k)

-- `clearpteu`, of the entry that `walkpgdir` finds.
module _ {F : Type 0} where
  clear_user : Option (ℕ × ℕ) → Machine F → Outcome (Machine F)
  clear_user none k = panic "clearpteu"
  clear_user (some (t, i)) k =
      let pte = get_entry t i k in ok (set_entry t i (if user pte then pte - pte_u else pte) k)

  unfoldable pub clearpteu : ℕ → ℕ → Machine F → Outcome (Machine F)
  unfolding clear_user
  clearpteu pgdir uva k = clear_user (walkpgdir pgdir uva false k).0 k

  -- The first page of a process: its memory is `init` and zeros. `kalloc` is not checked, so a null
  -- page is the page at 0.
  unfoldable pub fill_first : ℕ → List ℕ → Option ℕ × Machine F → Outcome (Machine F)
  fill_first pgdir init r =
      let mem : ℕ = elim r.0 [ none ↦ 0 | some mem ↦ mem ] in
      do
        (mapped, k) ← mappages pgdir 0 page_size (v2p mem) (pte_w + pte_u) (clear_page mem r.1)
        ok (set_frame mem (copy_to (k.env.0 mem) 0 init) k)

  unfoldable pub inituvm : ℕ → List ℕ → Machine F → Outcome (Machine F)
  unfolding fill_first
  inituvm pgdir init k =
      if leb page_size (length init)
      then panic "inituvm: more than a page"
      else fill_first pgdir init (kalloc k)

  -- Both error paths of `allocuvm`; the second one gives the last page back.
  unfoldable pub no_memory : ℕ → ℕ → ℕ → Option ℕ → Machine F → Outcome (ℕ × Machine F)
  no_memory pgdir oldsz newsz none k = do (sz, k) ← deallocuvm pgdir newsz oldsz k; ok (0, k)
  no_memory pgdir oldsz newsz (some mem) k = do
    (sz, k) ← deallocuvm pgdir newsz oldsz k
    k ← free_page mem k
    ok (0, k)

  -- A round of `allocuvm`: a zeroed page at `a`. It gives the page, and whether it is mapped.
  unfoldable pub add_page : ℕ → ℕ → Option ℕ × Machine F → Outcome (Option ℕ × Bool × Machine F)
  add_page pgdir a (none, k) = ok (none, false, k)
  add_page pgdir a (some mem, k) = do
    (mapped, k) ← mappages pgdir a page_size (v2p mem) (pte_w + pte_u) (clear_page mem k)
    ok (some mem, mapped, k)

  -- The loop of `allocuvm`, in `n` rounds.
  unfoldable pub alloc_loop : ℕ → ℕ → ℕ → ℕ → ℕ → Machine F → Outcome (ℕ × Machine F)
  alloc_loop pgdir oldsz newsz zero a k = ok (newsz, k)
  alloc_loop pgdir oldsz newsz (suc n) a k = do
    (mem, mapped, k) ← add_page pgdir a (kalloc k)
    if mapped
        then alloc_loop pgdir oldsz newsz n (a + page_size) k
        else no_memory pgdir oldsz newsz mem k

  -- Below KERNBASE no address wraps.
  unfoldable pub allocuvm : ℕ → ℕ → ℕ → Machine F → Outcome (ℕ × Machine F)
  allocuvm pgdir oldsz newsz k =
      if leb kernbase newsz
      then ok (0, k)
      else if ltb newsz oldsz
      then ok (oldsz, k)
      else let a = round_up oldsz in
        alloc_loop pgdir oldsz newsz ((newsz + (page_size - 1) - a) / page_size) a k

  -- `uva2ka`; `null_word` is the word at address 0, which it reads where there is no table.
  unfoldable pub kernel_address : ℕ → Option (ℕ × ℕ) → Machine F → Option ℕ
  kernel_address null_word found k =
      let pte : ℕ = elim found [ none ↦ null_word | some (t, i) ↦ get_entry t i k ] in
      if not (present pte) then none else if not (user pte) then none else some (p2v (pte_addr pte))

  unfoldable pub uva2ka : ℕ → ℕ → ℕ → Machine F → Option ℕ
  unfolding kernel_address
  uva2ka null_word pgdir uva k = kernel_address null_word (walkpgdir pgdir uva false k).0 k

  -- The loop of `copyout` over the bytes that are left, in at most `fuel` rounds. It gives whether
  -- all were copied.
  unfoldable pub copyout_loop : ℕ → ℕ → ℕ → ℕ → List ℕ → Machine F → Bool × Machine F
  copyout_loop null_word pgdir zero va buf k = (true, k)
  copyout_loop null_word pgdir (suc fuel) va buf k =
      let va0 = round_down va in
      let n = min (page_size - (va - va0)) (length buf) in
      let round : Bool × Machine F = elim (uva2ka null_word pgdir va0 k) [
        | none ↦ (false, k)
        | some pa0 ↦
            copyout_loop null_word pgdir fuel ((va0 + page_size) % u32_mod) (drop n buf)
              (set_frame pa0 (copy_to (k.env.0 pa0) (va - va0) (take n buf)) k)
      ] in
      if length buf == 0 then (true, k) else round

  unfoldable pub copyout : ℕ → ℕ → ℕ → List ℕ → Machine F → Bool × Machine F
  unfolding copyout_loop
  copyout null_word pgdir va buf k = copyout_loop null_word pgdir (length buf) va buf k

module _ {F : Type 0} where
  -- A round of `copyuvm`: the copy of one page, mapped at `i`.
  unfoldable pub copy_page : ℕ → ℕ → ℕ → Option ℕ × Machine F → Outcome (Bool × Machine F)
  copy_page d i pte (none, k) = ok (false, k)
  copy_page d i pte (some mem, k) =
      mappages d i page_size (v2p mem) (pte_flags pte)
        (set_frame mem (k.env.0 (p2v (pte_addr pte))) k)

  unfoldable pub copy_entry : ℕ → ℕ → Option (ℕ × ℕ) → Machine F → Outcome (Bool × Machine F)
  unfolding copy_page
  copy_entry d i none k = panic "copyuvm: pte should exist"
  copy_entry d i (some (t, j)) k =
      let pte = get_entry t j k in
      if present pte then copy_page d i pte (kalloc k) else panic "copyuvm: page not present"

  -- The loop of `copyuvm` in `n` rounds.
  unfoldable pub copy_loop : ℕ → ℕ → ℕ → ℕ → Machine F → Outcome (Option ℕ × Machine F)
  unfolding give_up
  copy_loop pgdir d zero i k = ok (some d, k)
  copy_loop pgdir d (suc n) i k = do
    (copied, k) ← copy_entry d i (walkpgdir pgdir i false k).0 k
    if copied then copy_loop pgdir d n (i + page_size) k else give_up d k

  unfoldable pub copy_pages : ℕ → ℕ → Option ℕ × Machine F → Outcome (Option ℕ × Machine F)
  copy_pages pgdir sz (none, k) = ok (none, k)
  copy_pages pgdir sz (some d, k) = copy_loop pgdir d ((sz + (page_size - 1)) / page_size) 0 k

module _ {F : Type 0} (kmap : List Kmap) where
  unfoldable pub copyuvm : ℕ → ℕ → Machine F → Outcome (Option ℕ × Machine F)
  unfolding copy_pages
  copyuvm pgdir sz k = do r ← setupkvm kmap k; copy_pages pgdir sz r
