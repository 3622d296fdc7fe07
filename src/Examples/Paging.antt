-- ===== src/Examples/Paging.antt =====
-- A page table in a memory of eight free pages.
use xv6_system_calls.Prelude.{
  ℕ, ◌+◌, ◌*◌, ◌/◌, ◌-◌, ◌%◌, ◌≡◌, ◌<◌, ◌≤◌, ◌∙◌, Bool-cases, refl, ap, inl, inr, true, false, none,
  some, List, [], ◌∷◌, arith, Outcome, ok, panic,
}
use xv6_system_calls.Fs.Map.{load_word-zeros}
use xv6_system_calls.Kalloc.{kalloc, round_up, page_size, kernbase}
use xv6_system_calls.Kalloc.FreeList.{IsPage}
use xv6_system_calls.Syscall.{load_word}
use xv6_system_calls.Vm.{Machine, pdx, map_loop, map_page, mappages, walkpgdir, present}
use xv6_system_calls.Vm.Translation.{page_of, listed, IsTable, get_word, pte_at}
use xv6_system_calls.Vm.Mapping.{inside, Maps, mappages-Maps, mapped_range}
use xv6_system_calls.Vm.Grow.{Grows, allocuvm-Grows}
use xv6_system_calls.Vm.Copy.{Copies, copyuvm-Copies}
use xv6_system_calls.Vm.Setup.{AreKernelMaps}
use xv6_system_calls.Vm.User.{
  copyuvm, copy_pages, copy_loop, copy_entry, copy_page, setupkvm, new_pgdir, map_kernel, Kmap,
  allocuvm, alloc_loop, add_page,
}
use xv6_system_calls.Examples.Machine.{busy}

abbrev memory : Machine (Unit {0})
memory = record {
  procs = busy.procs;
  next_pid = 4;
  init_proc = some 0;
  files = busy.files;
  free_pages =
      0x8040_1000 ∷ 0x8040_2000 ∷ 0x8040_3000 ∷ 0x8040_4000 ∷ 0x8040_5000 ∷ 0x8040_6000
      ∷ 0x8040_7000 ∷ 0x8040_8000 ∷ [];
  kernel_end = 0x8010_0000;
  pipes = λ a. none;
  env = ((λ p o. 0), tt);
}

no_entry : (i : ℕ) → present (get_word memory.env.0 0x8040_0000 i) ≡ false
no_entry i = rw (load_word-zeros (4 * i)) refl

page : (v : ℕ) → v % page_size ≡ 0 → 0x8040_0000 ≤ v → v < 0x8040_9000 → IsPage 0x8010_0000 v
page v aligned low high = record {
  aligned = aligned;
  above_kernel = omega (arith, low);
  above_base = omega (arith, low);
  below_top = omega (arith, high);
}

memory-IsTable : IsTable memory.kernel_end memory.free_pages memory.env.0 0x8040_0000
memory-IsTable = record {
  pages = (
    page 0x8040_1000 refl (omega arith) (omega arith),
    (
      page 0x8040_2000 refl (omega arith) (omega arith),
      (
        page 0x8040_3000 refl (omega arith) (omega arith),
        (
          page 0x8040_4000 refl (omega arith) (omega arith),
          (
            page 0x8040_5000 refl (omega arith) (omega arith),
            (
              page 0x8040_6000 refl (omega arith) (omega arith),
              (
                page 0x8040_7000 refl (omega arith) (omega arith),
                (page 0x8040_8000 refl (omega arith) (omega arith), tt),
              ),
            ),
          ),
        ),
      ),
    ),
  );
  once = (refl, (refl, (refl, (refl, (refl, (refl, (refl, (refl, tt))))))));
  root = page 0x8040_0000 refl (omega arith) (omega arith);
  root_used = refl;
  table = λ i on. absurd (cc (no_entry i, on));
  used = λ i on. absurd (cc (no_entry i, on));
  not_root = λ i on. absurd (cc (no_entry i, on));
  apart = λ i j on on' eq. absurd (cc (no_entry i, on));
}

abbrev reached : {A : Type 0} → Outcome (A × Machine (Unit {0})) → Machine (Unit {0})
reached (ok (r, k)) = k
reached (panic s) = memory

abbrev grown : Machine (Unit {0})
grown = reached (allocuvm 0x8040_0000 0 5000 memory)

runs : allocuvm 0x8040_0000 0 5000 memory ≡ ok (5000, grown)
unfolding allocuvm alloc_loop add_page kalloc mappages map_loop map_page walkpgdir load_word
runs = refl

allocuvm-Grows_example :
    Grows 0x8040_0000 (round_up 0) ((5000 + (page_size - 1) - round_up 0) / page_size) memory grown
    × (◌≡◌ {A = ℕ} 5000 5000)
    × (5000 < kernbase)
allocuvm-Grows_example =
    allocuvm-Grows 0x8040_0000 0 5000 5000 memory grown memory-IsTable (omega arith)
      (λ e. absurd (omega arith)) runs

abbrev mapped : Machine (Unit {0})
mapped = reached (mappages 0x8040_0000 0x1234 0x2000 0x10_0000 2 memory)

maps : mappages 0x8040_0000 0x1234 0x2000 0x10_0000 2 memory ≡ ok (true, mapped)
unfolding mappages map_loop map_page walkpgdir load_word kalloc
maps = refl

mappages-Maps_example :
    Maps 0x8040_0000
      (mapped_range 0x1234
        ((0x1234 % page_size + 0x2000 + (page_size - 1)) / page_size)
        0x10_0000
        2
        (pte_at memory.env.0 0x8040_0000))
      memory
      mapped
mappages-Maps_example =
    mappages-Maps 0x8040_0000 2 (omega arith) 0x1234 0x2000 0x10_0000 memory mapped memory-IsTable
      (omega arith) (omega arith) (omega arith) refl maps

-- One page of the kernel, so that the example is small.
abbrev kernel_page : List Kmap
kernel_page = record { virt = 0x8000_0000; phys_start = 0; phys_end = 0x1000; perm = 2 } ∷ []

kernel_page-AreKernelMaps : AreKernelMaps kernel_page
kernel_page-AreKernelMaps = (
  record {
    aligned = refl;
    above = omega arith;
    some_bytes = omega arith;
    room = omega arith;
    start = refl;
    phys_room = omega arith;
    flags = omega arith;
  },
  tt,
)

new_pages : Grows 0x8040_0000 0 2 memory grown
new_pages = allocuvm-Grows_example.0

empty_entry : (b : ℕ) → pte_at memory.env.0 0x8040_0000 b ≡ 0
empty_entry b = rw (no_entry (pdx b)) refl

grown_used :
    (b : ℕ)
    → b < kernbase
    → present (pte_at grown.env.0 0x8040_0000 b) ≡ true
    → listed (page_of (pte_at grown.env.0 0x8040_0000 b)) grown.free_pages ≡ false
grown_used b low on = elim (Bool-cases (inside 0 2 b)) [
  | inl new ↦ (new_pages.owned b (omega (arith, low)) new).in_use
  | inr other ↦
      let same : pte_at grown.env.0 0x8040_0000 b ≡ 0 =
        new_pages.outside b (omega (arith, low)) other ∙ empty_entry b in
      absurd (cc (on, ap present same))
]

abbrev child : Machine (Unit {0})
child = reached (copyuvm kernel_page 0x8040_0000 5000 grown)

copied : copyuvm kernel_page 0x8040_0000 5000 grown ≡ ok (some 0x8040_4000, child)
unfolding copyuvm copy_pages copy_loop copy_entry copy_page setupkvm new_pgdir map_kernel allocuvm
    alloc_loop add_page kalloc mappages map_loop map_page walkpgdir load_word
copied = refl

copyuvm-Copies_example :
    Copies 0x8040_0000 0x8040_4000 ((5000 + (page_size - 1)) / page_size) grown child
    × (listed 0x8040_4000 grown.free_pages ≡ true)
copyuvm-Copies_example =
    copyuvm-Copies kernel_page 0x8040_0000 5000 0x8040_4000 grown child kernel_page-AreKernelMaps
      new_pages.table grown_used (omega arith) copied
