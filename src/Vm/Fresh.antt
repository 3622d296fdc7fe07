-- ===== src/Vm/Fresh.antt =====
-- A page that `kalloc` gives and `mappages` of vm.c maps.
use xv6_system_calls.Prelude.{
  ℕ, ◌+◌, ◌-◌, ◌/◌, ◌%◌, ◌≤◌, ◌<◌, ◌≡◌, ◌∙◌, true, List, ◌∷◌, arith, ◌==◌, if◌then◌else◌, update,
  update_at, update_elsewhere, u32_mod, ok,
}
use xv6_system_calls.Kalloc.{kernbase, phystop, page_size}
use xv6_system_calls.Vm.{Machine, v2p, make_pte, mappages}
use xv6_system_calls.Vm.Translation.{
  pte_at, listed-cons, IsTable, IsData, filled_pte_at, IsTable-filled, IsData-fresh, IsData-filled,
  listed-false,
}
use xv6_system_calls.Vm.Mapping.{Maps, Maps-trans, Maps-same, mappages-Maps, mapped_range}

one_page :
    (a pa perm : ℕ) (entry : ℕ → ℕ) (b : ℕ)
    → a % page_size ≡ 0
    → mapped_range a ((a % page_size + page_size + (page_size - 1)) / page_size) pa perm entry b
      ≡ (if b / page_size == a / page_size then make_pte pa perm else entry b)
one_page a pa perm entry b aligned = rw aligned (ground arith)

module _ {F : Type 0} (pgdir : ℕ) (k : Machine F)
    (is : IsTable k.kernel_end k.free_pages k.env.0 pgdir) (t : ℕ) (rest : List ℕ) (f : ℕ → ℕ)
    (free : k.free_pages ≡ t ∷ rest) where
  -- `kalloc` and the bytes that the new page gets.
  abbrev pub taken : Machine F
  taken = record k { free_pages = rest; env = (update k.env.0 t f, k.env.1) }

  pub taken-Maps : Maps pgdir (pte_at k.env.0 pgdir) k taken
  taken-Maps = record {
    table = IsTable-filled k.kernel_end t rest k.env.0 pgdir f (rw free at is);
    entries = λ b low. filled_pte_at k.kernel_end t rest k.env.0 pgdir f (rw free at is) b;
    data_kept =
        λ p d. IsData-filled k.kernel_end t rest k.env.0 pgdir f (rw free at is) p (rw free at d);
    shrinks = λ v on. rw free (listed-cons v t rest on);
    bytes_kept =
        λ p d. update_elsewhere k.env.0 t p f (listed-false p t rest (rw free at d).in_use).0;
  }

  pub taken-IsData : IsData taken.free_pages taken.env.0 pgdir t
  taken-IsData = IsData-fresh k.kernel_end t rest k.env.0 pgdir f (rw free at is)

  -- The page is mapped at `a`.
  module _ (a perm : ℕ) (k' : Machine F) (flags : perm < page_size) (aligned : a % page_size ≡ 0)
      (low : a + page_size ≤ u32_mod)
      (run : mappages pgdir a page_size (v2p t) perm taken ≡ ok (true, k')) where
    pub taken_page : (t % page_size ≡ 0) × (kernbase ≤ t) × (t < kernbase + phystop)
    taken_page =
        let page = (rw free at is).pages.0 in (page.aligned, page.above_base, page.below_top)

    pub mapped-Maps :
        Maps pgdir
          (λ b.
            if b / page_size == a / page_size
            then make_pte (v2p t) perm
            else pte_at k.env.0 pgdir b)
          k
          k'
    mapped-Maps =
        let (aligned', above, below) = taken_page in
        Maps-trans pgdir _ _ k taken k' taken-Maps (
          Maps-same pgdir
            (mapped_range a ((a % page_size + page_size + (page_size - 1)) / page_size) (v2p t) perm
              (pte_at taken.env.0 pgdir))
            _ taken k'
            (λ b lowb.
              rw (taken-Maps.entries b lowb)
                (one_page a (v2p t) perm (pte_at k.env.0 pgdir) b aligned))
            (mappages-Maps pgdir perm flags a page_size (v2p t) taken k' taken-Maps.table
              (omega arith) low (omega arith) (omega arith) run))

    -- The new page keeps its bytes, and is no part of the table.
    pub mapped_page : IsData k'.free_pages k'.env.0 pgdir t × (k'.env.0 t ≡ f)
    mapped_page =
        let (aligned', above, below) = taken_page in
        let maps =
          mappages-Maps pgdir perm flags a page_size (v2p t) taken k' taken-Maps.table (omega arith)
            low (omega arith) (omega arith) run in
        (maps.data_kept t taken-IsData, maps.bytes_kept t taken-IsData ∙ update_at k.env.0 t f)
