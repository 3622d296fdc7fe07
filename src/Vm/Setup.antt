-- ===== src/Vm/Setup.antt =====
-- A page table that `setupkvm` of vm.c has made: the kernel's mappings, and no user page.
use xv6_system_calls.Prelude.{
  ℕ, ◌+◌, ◌-◌, ◌*◌, ◌/◌, ◌%◌, ◌≤◌, ◌<◌, ◌≡◌, ◌≢◌, refl, sym, ap, ◌∙◌, inl, inr, true, false, none,
  some, List, [], ◌∷◌, arith, if◌then◌else◌, Bool-cases, update_elsewhere, eq→==, u32_mod, ok,
  List-cases, ok-pair, >>=-eq-ok, eq_of_some,
}
use xv6_system_calls.Kalloc.{kernbase, phystop, page_size, kalloc}
use xv6_system_calls.Kalloc.FreeList.{AllPages}
use xv6_system_calls.Fs.Map.{load_word-zeros}
use xv6_system_calls.Vm.{Machine, pdx, present, clear_page, freevm, mappages}
use xv6_system_calls.Vm.Translation.{
  get_word, pte_at, listed, listed-cons, NoDup, IsTable, IsData, listed-false,
}
use xv6_system_calls.Vm.Mapping.{Maps, mappages-Maps, mapped_range}
use xv6_system_calls.Vm.User.{kernel_maps, Kmap, give_up, map_kernel, new_pgdir, setupkvm}

-- A mapping of the kernel: whole pages above KERNBASE.
pub record IsKernelMap (m : Kmap) : Type 0 where
  pub aligned : m.virt % page_size ≡ 0
  pub above : kernbase ≤ m.virt
  pub some_bytes : 0 < (m.phys_end + u32_mod - m.phys_start) % u32_mod
  pub room : m.virt + (m.phys_end + u32_mod - m.phys_start) % u32_mod ≤ u32_mod
  pub start : m.phys_start % page_size ≡ 0
  pub phys_room :
      m.phys_start
        + ((m.phys_end + u32_mod - m.phys_start) % u32_mod + (page_size - 1))
          / page_size
          * page_size
      ≤ u32_mod
  pub flags : m.perm < page_size

abbrev pub AreKernelMaps : List Kmap → Type 0
AreKernelMaps [] = Unit {0}
AreKernelMaps (m ∷ ms) = IsKernelMap m × AreKernelMaps ms

-- From `k` to `k'` the table `d` was made: no page that was in use changed or is part of it.
pub record Makes {F : Type 0} (d : ℕ) (k k' : Machine F) : Type 0 where
  pub table : IsTable k'.kernel_end k'.free_pages k'.env.0 d
  pub shrinks : (v : ℕ) → listed v k'.free_pages ≡ true → listed v k.free_pages ≡ true
  pub data_kept : (p : ℕ) → listed p k.free_pages ≡ false → IsData k'.free_pages k'.env.0 d p
  pub bytes_kept : (p : ℕ) → listed p k.free_pages ≡ false → k'.env.0 p ≡ k.env.0 p

-- What maps more in `d` keeps this.
pub Makes-Maps :
    {F : Type 0} (d : ℕ) (entry : ℕ → ℕ) (k mid k' : Machine F)
    → Makes d k mid
    → Maps d entry mid k'
    → Makes d k k'
Makes-Maps d entry k mid k' made maps = record {
  table = maps.table;
  shrinks = λ v on. made.shrinks v (maps.shrinks v on);
  data_kept = λ p used. maps.data_kept p (made.data_kept p used);
  bytes_kept = λ p used. maps.bytes_kept p (made.data_kept p used) ∙ made.bytes_kept p used;
}

module _ {F : Type 0} (k : Machine F) (d : ℕ) (rest : List ℕ) (free : k.free_pages ≡ d ∷ rest)
    (pages : AllPages k.kernel_end (d ∷ rest)) (once : NoDup (d ∷ rest)) where
  abbrev directory : Machine F
  directory = clear_page d (record k { free_pages = rest })

  no_entry : (i : ℕ) → get_word directory.env.0 d i ≡ 0
  no_entry i = rw (eq→== d d refl) (load_word-zeros (4 * i))

  not_present : (i : ℕ) → present (get_word directory.env.0 d i) ≡ false
  not_present i = rw (no_entry i) refl

  directory-Makes : Makes d k directory
  directory-Makes = record {
    table = record {
      pages = pages.1;
      once = once.1;
      root = pages.0;
      root_used = once.0;
      table = λ i on. absurd (cc (not_present i, on));
      used = λ i on. absurd (cc (not_present i, on));
      not_root = λ i on. absurd (cc (not_present i, on));
      apart = λ i j on on' eq. absurd (cc (not_present i, on));
    };
    shrinks = λ v on. rw free (listed-cons v d rest on);
    data_kept = λ p used. record {
      in_use = (listed-false p d rest (rw free at used)).1;
      no_root = λ same. (listed-false p d rest (rw free at used)).0 (sym same);
      no_table = λ i on. absurd (cc (not_present i, on));
    };
    bytes_kept =
        λ p used. update_elsewhere k.env.0 d p (λ o. 0) (listed-false p d rest (rw free at used)).0;
  }

  directory_entries : (b : ℕ) → pte_at directory.env.0 d b ≡ 0
  directory_entries b = rw (not_present (pdx b)) refl

pub none-some : {a : ℕ} → none ≢ some a
none-some h = cc

-- A table without user entries.
abbrev pub NoUser : {F : Type 0} → ℕ → Machine F → Type 0
NoUser d k = (b : ℕ) → b < kernbase → pte_at k.env.0 d b ≡ 0

above_user :
    (virt n pa perm b : ℕ) (entry : ℕ → ℕ)
    → virt % page_size ≡ 0
    → kernbase ≤ virt
    → b < kernbase
    → mapped_range virt n pa perm entry b ≡ entry b
above_user virt n pa perm b entry aligned above low = ground arith

pub gave_up : {F : Type 0} (d : ℕ) (k k' : Machine F) (d' : ℕ) → give_up d k ≢ ok (some d', k')
unfolding give_up
gave_up d k k' d' h =
    let (a, b, result) = >>=-eq-ok (freevm (some d) k) (λ k. ok (none, k)) h in
    absurd (none-some (ok-pair result).0)

module _ {F : Type 0} (k0 : Machine F) (d : ℕ) where
  map_kernel-Makes :
      (ms : List Kmap) (k k' : Machine F) (d' : ℕ)
      → AreKernelMaps ms
      → Makes d k0 k
      → NoUser d k
      → map_kernel d ms k ≡ ok (some d', k')
      → (d' ≡ d) × Makes d k0 k' × NoUser d k'
  unfolding map_kernel
  map_kernel-Makes [] k k' d' are made no_user h =
      let same = (ok-pair h).1 in
      (eq_of_some (sym (ok-pair h).0), (rw (sym same) made), (rw (sym same) no_user))
  map_kernel-Makes (m ∷ ms) k k' d' are made no_user h =
      let size = (m.phys_end + u32_mod - m.phys_start) % u32_mod in
      let ((mapped, mid), one, rest) =
        >>=-eq-ok (mappages d m.virt size m.phys_start m.perm k)
          (λ r. if r.0 then map_kernel d ms r.1 else give_up d r.1) h in
      let is = are.0 in
      elim (Bool-cases mapped) [
        | inl good ↦
            let zero_offset : m.virt % page_size + size + (page_size - 1) ≡ size + (page_size - 1) =
              omega (arith, is.aligned) in
            let maps =
              mappages-Maps d m.perm is.flags m.virt size m.phys_start k mid made.table
                is.some_bytes is.room (rw zero_offset is.phys_room) is.start
                (one ∙ ap (λ b. ok (b, mid)) good) in
            map_kernel-Makes ms mid k' d' are.1 (Makes-Maps d _ k0 k mid made maps)
              (λ b low.
                maps.entries b (omega (arith, low))
                ∙ above_user m.virt _ m.phys_start m.perm b (pte_at k.env.0 d) is.aligned is.above
                    low
                ∙ no_user b low)
              (rw good at rest)
        | inr bad ↦ absurd (gave_up d mid k' d' (rw bad at rest))
      ]

pub setupkvm-Makes :
    {F : Type 0} (kmap : List Kmap) (k k' : Machine F) (d : ℕ)
    → AreKernelMaps kmap
    → AllPages k.kernel_end k.free_pages
    → NoDup k.free_pages
    → setupkvm kmap k ≡ ok (some d, k')
    → Makes d k k' × NoUser d k' × (listed d k.free_pages ≡ true)
unfolding setupkvm new_pgdir kalloc
setupkvm-Makes kmap k k' d are pages once h = elim (List-cases k.free_pages) [
  | inl full ↦ absurd (none-some (ok-pair (rw full at h)).0)
  | inr (t, rest, free) ↦
      let (same, made, no_user) =
        map_kernel-Makes k t kmap (directory k t rest free (rw free at pages) (rw free at once)) k'
          d are (directory-Makes k t rest free (rw free at pages) (rw free at once))
          (λ b low. directory_entries k t rest free (rw free at pages) (rw free at once) b)
          (rw free at h) in
      ((rw (sym same) at made), (rw (sym same) at no_user), rw (free, same, eq→== t t refl) refl)
]

-- The kernel's own table is such a one, wherever the linker puts the start of a page `data`.
kernel_maps-AreKernelMaps :
    (kdata : ℕ)
    → kdata % page_size ≡ 0
    → 0x8010_0000 < kdata
    → kdata < kernbase + phystop
    → AreKernelMaps (kernel_maps kdata)
kernel_maps-AreKernelMaps kdata aligned above below = (
  record {
    aligned = refl;
    above = omega arith;
    some_bytes = omega arith;
    room = omega arith;
    start = refl;
    phys_room = omega arith;
    flags = omega arith;
  },
  (
    record {
      aligned = refl;
      above = omega arith;
      some_bytes = omega (arith, above, below);
      room = omega (arith, above, below);
      start = refl;
      phys_room = omega (arith, above, below);
      flags = omega arith;
    },
    (
      record {
        aligned = aligned;
        above = omega (arith, above);
        some_bytes = omega (arith, above, below);
        room = omega (arith, above, below);
        start = omega (arith, aligned, above, below);
        phys_room = omega (arith, above, below);
        flags = omega arith;
      },
      (
        record {
          aligned = refl;
          above = omega arith;
          some_bytes = omega arith;
          room = omega arith;
          start = refl;
          phys_room = omega arith;
          flags = omega arith;
        },
        tt,
      ),
    ),
  ),
)
