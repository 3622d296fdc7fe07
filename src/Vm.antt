-- ===== src/Vm.antt =====
-- vm.c: page tables. A page of memory is named by its address in the kernel, and `Frames` holds the
-- bytes of each page; it is the first part of the kernel's `env`. A page table entry is a word.
pub mod User
pub mod Translation
pub mod Entry
pub mod Mapping
pub mod Fresh
pub mod Grow
pub mod Setup
pub mod Copy
use xv6_system_calls.Prelude.{
  ℕ, zero, suc, ◌+◌, ◌-◌, ◌*◌, ◌/◌, ◌%◌, ◌^◌, Bool, true, false, not, Option, none, some, List, [],
  ◌∷◌, ◌==◌, ltb, leb, if◌then◌else◌, update, u32_mod, Outcome, ok, panic, ◌>>=◌,
}
use xv6_system_calls.Kernel.{Kernel}
use xv6_system_calls.Kalloc.{page_size, kernbase, phystop, round_up, kalloc, kfree}
use xv6_system_calls.Syscall.{load_word}
use xv6_system_calls.Fs.{store_word}

abbrev pub Frames : Type 0
Frames = ℕ → ℕ → ℕ

-- `PTE_W`, `PTE_U`
abbrev pub pte_w : ℕ
pte_w = 2

abbrev pub pte_u : ℕ
pte_u = 4

abbrev pub npdentries : ℕ
npdentries = 1024

-- `V2P` and `P2V`
abbrev pub v2p : ℕ → ℕ
v2p a = (a + u32_mod - kernbase) % u32_mod

abbrev pub p2v : ℕ → ℕ
p2v a = (a + kernbase) % u32_mod

-- `PDX`, `PTX`, `PGROUNDDOWN`
abbrev pub pdx : ℕ → ℕ
pdx va = va / 0x40_0000 % 0x400

abbrev pub ptx : ℕ → ℕ
ptx va = va / 0x1000 % 0x400

abbrev pub round_down : ℕ → ℕ
round_down a = a / page_size * page_size

-- `pte & PTE_P`, `pte & PTE_U`, `PTE_ADDR`, `PTE_FLAGS`
abbrev pub present : ℕ → Bool
present pte = pte % 2 == 1

abbrev pub user : ℕ → Bool
user pte = pte / 4 % 2 == 1

abbrev pub pte_addr : ℕ → ℕ
pte_addr pte = pte / 0x1000 * 0x1000

abbrev pub pte_flags : ℕ → ℕ
pte_flags pte = pte % 0x1000

-- `pa | perm | PTE_P`, where `pa` is the start of a page and `perm` below the size of one.
abbrev pub make_pte : ℕ → ℕ → ℕ
make_pte pa perm = pa + (if present perm then perm else perm + 1)

abbrev pub Machine : Type 0 → Type 0
Machine F = Kernel (Frames × F)

-- Where there is no table, `deallocuvm` goes on at the next one.
unfoldable pub next_address : ℕ → Option (ℕ × ℕ) → ℕ
next_address a none = (pdx a + 1) * 0x40_0000 % u32_mod
next_address a (some _) = (a + page_size) % u32_mod

module _ {F : Type 0} where
  abbrev pub set_frame : ℕ → (ℕ → ℕ) → Machine F → Machine F
  set_frame p bytes k = record k { env = (update k.env.0 p bytes, k.env.1) }

  -- Word `i` of a page, as a table.
  abbrev pub get_entry : ℕ → ℕ → Machine F → ℕ
  get_entry p i k = load_word (k.env.0 p) (4 * i)

  abbrev pub set_entry : ℕ → ℕ → ℕ → Machine F → Machine F
  set_entry p i pte k = set_frame p (store_word (k.env.0 p) i pte) k

  -- `memset(p, 0, PGSIZE)`
  abbrev pub clear_page : ℕ → Machine F → Machine F
  clear_page p k = set_frame p (λ o. 0) k

  -- `kfree`, which fills the page with 1.
  unfoldable pub free_page : ℕ → Machine F → Outcome (Machine F)
  free_page p k = do k ← kfree p k; ok (set_frame p (λ o. 1) k)

  unfoldable pub new_table : ℕ → ℕ → Option ℕ × Machine F → Option (ℕ × ℕ) × Machine F
  new_table pgdir va (none, k) = (none, k)
  new_table pgdir va (some t, k) =
      (some (t, ptx va), set_entry pgdir (pdx va) (v2p t + 7) (clear_page t k))

  -- `walkpgdir`: the page and the index of the entry.
  unfoldable pub walkpgdir : ℕ → ℕ → Bool → Machine F → Option (ℕ × ℕ) × Machine F
  unfolding new_table
  walkpgdir pgdir va alloc k =
      let pde = get_entry pgdir (pdx va) k in
      if present pde
      then (some (p2v (pte_addr pde), ptx va), k)
      else if alloc
      then new_table pgdir va (kalloc k)
      else (none, k)

  -- The entry of a round of `mappages`.
  unfoldable pub map_entry : ℕ → ℕ → Option (ℕ × ℕ) × Machine F → Outcome (Bool × Machine F)
  map_entry pa perm (none, k) = ok (false, k)
  map_entry pa perm (some (t, i), k) =
      if present (get_entry t i k)
      then panic "remap"
      else ok (true, set_entry t i (make_pte pa perm) k)

  unfoldable pub map_page : ℕ → ℕ → ℕ → ℕ → Machine F → Outcome (Bool × Machine F)
  unfolding map_entry
  map_page pgdir a pa perm k = map_entry pa perm (walkpgdir pgdir a true k)

  -- The loop of `mappages`, in `n` rounds.
  unfoldable pub map_loop : ℕ → ℕ → ℕ → ℕ → ℕ → Machine F → Outcome (Bool × Machine F)
  map_loop pgdir zero a pa perm k = ok (true, k)
  map_loop pgdir (suc n) a pa perm k = do
    (mapped, k) ← map_page pgdir a pa perm k
    if mapped
        then map_loop pgdir n ((a + page_size) % u32_mod) ((pa + page_size) % u32_mod) perm k
        else ok (false, k)

  -- `mappages`: it goes from the page of `va` to the page of `va + size - 1`.
  unfoldable pub mappages : ℕ → ℕ → ℕ → ℕ → ℕ → Machine F → Outcome (Bool × Machine F)
  mappages pgdir va size pa perm k =
      let a = round_down va in
      let last = round_down ((va + size + u32_mod - 1) % u32_mod) in
      map_loop pgdir ((last + u32_mod - a) % u32_mod / page_size + 1) a pa perm k

  unfoldable pub drop_entry : ℕ → ℕ → Machine F → Outcome (Machine F)
  drop_entry t i k =
      let pte = get_entry t i k in
      if not (present pte)
      then ok k
      else if pte_addr pte == 0
      then panic "kfree"
      else do k ← free_page (p2v (pte_addr pte)) k; ok (set_entry t i 0 k)

  unfoldable pub drop_found : Option (ℕ × ℕ) → Machine F → Outcome (Machine F)
  unfolding drop_entry
  drop_found none k = ok k
  drop_found (some (t, i)) k = drop_entry t i k

  -- The loop of `deallocuvm` from `a` on, in at most `fuel` rounds.
  unfoldable pub dealloc_loop : ℕ → ℕ → ℕ → ℕ → Machine F → Outcome (Machine F)
  dealloc_loop pgdir oldsz zero a k = ok k
  dealloc_loop pgdir oldsz (suc fuel) a k =
      let found = walkpgdir pgdir a false k in
      let round = (do
        k ← drop_found found.0 k
        dealloc_loop pgdir oldsz fuel (next_address a found.0) k) in
      if ltb a oldsz then round else ok k

  unfoldable pub deallocuvm : ℕ → ℕ → ℕ → Machine F → Outcome (ℕ × Machine F)
  deallocuvm pgdir oldsz newsz k =
      if leb oldsz newsz
      then ok (oldsz, k)
      else do k ← dealloc_loop pgdir oldsz (oldsz / page_size + 1) (round_up newsz) k; ok (newsz, k)

  unfoldable pub free_table : ℕ → ℕ → Machine F → Outcome (Machine F)
  free_table pgdir i k =
      let pde = get_entry pgdir i k in
      if present pde then free_page (p2v (pte_addr pde)) k else ok k

  -- The loop of `freevm` over the directory, `n` entries from `i` on.
  unfoldable pub free_tables : ℕ → ℕ → ℕ → Machine F → Outcome (Machine F)
  free_tables pgdir zero i k = ok k
  free_tables pgdir (suc n) i k = do k ← free_table pgdir i k; free_tables pgdir n (i + 1) k

  unfoldable pub freevm : Option ℕ → Machine F → Outcome (Machine F)
  freevm none k = panic "freevm: no pgdir"
  freevm (some pgdir) k = do
    (sz, k) ← deallocuvm pgdir kernbase 0 k
    k ← free_tables pgdir npdentries 0 k
    free_page pgdir k
