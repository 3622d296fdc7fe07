-- ===== src/Vm/Mapping.antt =====
-- What `mappages` of vm.c does to the translation of a page table, page by page.
use xv6_system_calls.Prelude.{
  ℕ, zero, suc, ◌+◌, ◌-◌, ◌*◌, ◌/◌, ◌%◌, ◌≤◌, ◌<◌, ◌≡◌, refl, sym, ap, ◌∙◌, inl, inr, Bool, true,
  false, Option, none, some, List, [], ◌∷◌, arith, ◌==◌, ◌&&◌, ltb, leb, if◌then◌else◌, Bool-cases,
  eq→==, u32_mod, ok, List-cases, ok-pair, >>=-eq-ok,
}
use xv6_system_calls.Kalloc.{page_size, kalloc}
use xv6_system_calls.Vm.{
  Machine, pdx, ptx, present, make_pte, get_entry, walkpgdir, new_table, set_entry, map_entry,
  map_page, map_loop, mappages,
}
use xv6_system_calls.Vm.Translation.{
  get_word, listed, listed-cons, page_of, pte_at, IsTable, IsData, new_pde, new_pde_present,
  with_table, IsTable-with_table, with_table-pte_at, IsData-with_table, with_table_frame, root_word,
}
use xv6_system_calls.Vm.Entry.{
  with_entry-pte_at, IsTable-with_entry, IsData-with_entry, with_entry_frame,
}

-- From `k` to `k'` the entries in the table `pgdir` became those of `entry`, and no page that is
-- neither free nor part of the table changed.
pub record Maps {F : Type 0} (pgdir : ℕ) (entry : ℕ → ℕ) (k k' : Machine F) : Type 0 where
  pub table : IsTable k'.kernel_end k'.free_pages k'.env.0 pgdir
  pub entries : (b : ℕ) → b < u32_mod → pte_at k'.env.0 pgdir b ≡ entry b
  pub data_kept :
      (p : ℕ) → IsData k.free_pages k.env.0 pgdir p → IsData k'.free_pages k'.env.0 pgdir p
  pub shrinks : (v : ℕ) → listed v k'.free_pages ≡ true → listed v k.free_pages ≡ true
  pub bytes_kept : (p : ℕ) → IsData k.free_pages k.env.0 pgdir p → k'.env.0 p ≡ k.env.0 p

module _ {F : Type 0} (pgdir : ℕ) where
  pub Maps-refl :
      (k : Machine F)
      → IsTable k.kernel_end k.free_pages k.env.0 pgdir
      → Maps pgdir (pte_at k.env.0 pgdir) k k
  Maps-refl k is = record {
    table = is;
    entries = λ b low. refl;
    data_kept = λ p d. d;
    shrinks = λ v free. free;
    bytes_kept = λ p d. refl;
  }

  pub Maps-trans :
      (entry entry' : ℕ → ℕ) (k mid k' : Machine F)
      → Maps pgdir entry k mid
      → Maps pgdir entry' mid k'
      → Maps pgdir entry' k k'
  Maps-trans entry entry' k mid k' one two = record {
    table = two.table;
    entries = two.entries;
    data_kept = λ p d. two.data_kept p (one.data_kept p d);
    shrinks = λ v free. one.shrinks v (two.shrinks v free);
    bytes_kept = λ p d. two.bytes_kept p (one.data_kept p d) ∙ one.bytes_kept p d;
  }

  pub Maps-same :
      (entry entry' : ℕ → ℕ) (k k' : Machine F)
      → ((b : ℕ) → b < u32_mod → entry b ≡ entry' b)
      → Maps pgdir entry k k'
      → Maps pgdir entry' k k'
  Maps-same entry entry' k k' same one = record {
    table = one.table;
    entries = λ b low. one.entries b low ∙ same b low;
    data_kept = one.data_kept;
    shrinks = one.shrinks;
    bytes_kept = one.bytes_kept;
  }

-- What `walkpgdir` leaves where it finds or makes a table for `a`.
record Walked {F : Type 0} (pgdir a : ℕ) (k k' : Machine F) : Type 0 where
  maps : Maps pgdir (pte_at k.env.0 pgdir) k k'
  here : present (get_word k'.env.0 pgdir (pdx a)) ≡ true

module _ {F : Type 0} (pgdir a : ℕ) (k : Machine F)
    (is : IsTable k.kernel_end k.free_pages k.env.0 pgdir) where
  found_entry :
      present (get_word k.env.0 pgdir (pdx a)) ≡ true
      → walkpgdir pgdir a true k ≡ (some (page_of (get_word k.env.0 pgdir (pdx a)), ptx a), k)
  unfolding walkpgdir
  found_entry here = rw here refl

  no_page :
      present (get_word k.env.0 pgdir (pdx a)) ≡ false
      → k.free_pages ≡ []
      → walkpgdir pgdir a true k ≡ (none, k)
  unfolding walkpgdir new_table kalloc
  no_page gone full = rw (gone, full) refl

  module _ (t : ℕ) (rest : List ℕ) (free : k.free_pages ≡ t ∷ rest)
      (gone : present (get_word k.env.0 pgdir (pdx a)) ≡ false) where
    is_cons : IsTable k.kernel_end (t ∷ rest) k.env.0 pgdir
    is_cons = rw free at is

    abbrev grown : Machine F
    grown = record k {
      free_pages = rest;
      env = (with_table k.kernel_end t rest k.env.0 pgdir (pdx a) is_cons gone, k.env.1);
    }

    new_entry : walkpgdir pgdir a true k ≡ (some (t, ptx a), grown)
    unfolding walkpgdir new_table kalloc
    new_entry = rw (gone, free) refl

    grown-Walked : Walked pgdir a k grown
    grown-Walked = record {
      maps = record {
        table = IsTable-with_table k.kernel_end t rest k.env.0 pgdir (pdx a) is_cons gone;
        entries =
            λ b low. with_table-pte_at k.kernel_end t rest k.env.0 pgdir (pdx a) is_cons gone b;
        data_kept = λ p d.
            IsData-with_table k.kernel_end t rest k.env.0 pgdir (pdx a) is_cons gone p
              (rw free at d);
        shrinks = λ v on. rw free (listed-cons v t rest on);
        bytes_kept = λ p d.
            with_table_frame k.kernel_end t rest k.env.0 pgdir (pdx a) is_cons gone p
              (rw free at d);
      };
      here =
          rw
            (
              root_word k.kernel_end t rest k.env.0 pgdir (pdx a) is_cons gone (pdx a),
              eq→== (pdx a) (pdx a) refl,
            )
            (new_pde_present k.kernel_end t is_cons.pages.0);
    }

    grown_page : t ≡ page_of (get_word grown.env.0 pgdir (pdx a))
    grown_page =
        rw
          (
            root_word k.kernel_end t rest k.env.0 pgdir (pdx a) is_cons gone (pdx a),
            eq→== (pdx a) (pdx a) refl,
          )
          (sym (new_pde k.kernel_end t is_cons.pages.0))

  Walked-to :
      (mid : Machine F) (t' i' t i : ℕ) (k' : Machine F)
      → walkpgdir pgdir a true k ≡ (some (t', i'), mid)
      → Walked pgdir a k mid
      → t' ≡ page_of (get_word mid.env.0 pgdir (pdx a))
      → i' ≡ ptx a
      → walkpgdir pgdir a true k ≡ (some (t, i), k')
      → Walked pgdir a k k' × (t ≡ page_of (get_word k'.env.0 pgdir (pdx a))) × (i ≡ ptx a)
  Walked-to mid t' i' t i k' e walked at_table at_index h =
      let pair : ◌≡◌ {A = Option (ℕ × ℕ) × Machine F} (some (t', i'), mid) (some (t, i), k') =
        sym e ∙ h in
      let same : mid ≡ k' = cc in
      let same_t : t' ≡ t = cc in
      let same_i : i' ≡ i = cc in
      (rw same at walked, sym same_t ∙ (rw same at at_table), sym same_i ∙ at_index)

  walkpgdir-Walked :
      (t i : ℕ) (k' : Machine F)
      → walkpgdir pgdir a true k ≡ (some (t, i), k')
      → Walked pgdir a k k' × (t ≡ page_of (get_word k'.env.0 pgdir (pdx a))) × (i ≡ ptx a)
  walkpgdir-Walked t i k' h = elim (Bool-cases (present (get_word k.env.0 pgdir (pdx a)))) [
    | inl here ↦
        Walked-to k _ _ t i k' (found_entry here)
          (record { maps = Maps-refl pgdir k is; here = here }) refl refl h
    | inr gone ↦ elim (List-cases k.free_pages) [
      | inl full ↦ absurd (cc (no_page gone full, h))
      | inr (v, rest, free) ↦
          Walked-to (grown v rest free gone) _ _ t i k' (new_entry v rest free gone)
            (grown-Walked v rest free gone) (grown_page v rest free gone) refl h
    ]
  ]

  module _ (pa perm : ℕ) (low : a < u32_mod) (small : make_pte pa perm < u32_mod) where
    abbrev mapped_entries : ℕ → ℕ
    mapped_entries b =
        if b / page_size == a / page_size then make_pte pa perm else pte_at k.env.0 pgdir b

    stored-Maps :
        (mid : Machine F)
        → Walked pgdir a k mid
        → Maps pgdir mapped_entries k
            (set_entry (page_of (get_word mid.env.0 pgdir (pdx a))) (ptx a) (make_pte pa perm) mid)
    stored-Maps mid walked =
        let is' = walked.maps.table in
        record {
          table =
              IsTable-with_entry mid.kernel_end mid.free_pages mid.env.0 pgdir a (make_pte pa perm)
                is' walked.here small;
          entries = λ b lowb.
              with_entry-pte_at mid.kernel_end mid.free_pages mid.env.0 pgdir a (make_pte pa perm)
                is' walked.here small b low lowb
              ∙ rw (walked.maps.entries b lowb) refl;
          data_kept = λ p d.
              IsData-with_entry mid.kernel_end mid.free_pages mid.env.0 pgdir a (make_pte pa perm)
                is' walked.here small p (walked.maps.data_kept p d);
          shrinks = walked.maps.shrinks;
          bytes_kept = λ p d.
              with_entry_frame mid.kernel_end mid.free_pages mid.env.0 pgdir a (make_pte pa perm)
                is' walked.here small p (walked.maps.data_kept p d)
              ∙ walked.maps.bytes_kept p d;
        }

    map_entry-Maps :
        (found : Option (ℕ × ℕ)) (mid k' : Machine F)
        → walkpgdir pgdir a true k ≡ (found, mid)
        → map_entry pa perm (found, mid) ≡ ok (true, k')
        → Maps pgdir mapped_entries k k'
    unfolding map_entry
    map_entry-Maps none mid k' e h = absurd (cc h)
    map_entry-Maps (some (t, i)) mid k' e h = elim (Bool-cases (present (get_entry t i mid))) [
      | inl remap ↦ absurd (ground arith)
      | inr empty ↦
          let (walked, at_table, at_index) = walkpgdir-Walked t i mid e in
          let result = (ok-pair (rw empty at h)).1 in
          rw (sym result, at_table, at_index) (stored-Maps mid walked)
    ]

    -- A page that `mappages` maps: its entry and no other one changes.
    map_page-Maps :
        (k' : Machine F)
        → map_page pgdir a pa perm k ≡ ok (true, k')
        → Maps pgdir mapped_entries k k'
    unfolding map_page
    map_page-Maps k' h =
        map_entry-Maps (walkpgdir pgdir a true k).0 (walkpgdir pgdir a true k).1 k' refl h

make_pte_small :
    (pa perm : ℕ)
    → pa % page_size ≡ 0
    → pa < u32_mod
    → perm < page_size
    → make_pte pa perm < u32_mod
make_pte_small pa perm aligned low flags = ground arith

-- Whether the page of `b` is one of the `n` pages from that of `a` on.
abbrev pub inside : ℕ → ℕ → ℕ → Bool
inside a n b = leb (a / page_size) (b / page_size) && ltb (b / page_size) (a / page_size + n)

-- The entries of `n` pages from `a` on that are mapped to the memory from `pa` on.
abbrev pub mapped_range : ℕ → ℕ → ℕ → ℕ → (ℕ → ℕ) → ℕ → ℕ
mapped_range a n pa perm entry b =
    if inside a n b
    then make_pte (pa + (b / page_size - a / page_size) * page_size) perm
    else entry b

mapped_range-suc :
    (n a pa perm b : ℕ) (entry : ℕ → ℕ)
    → a / page_size + suc n ≤ 0x10_0000
    → pa + suc n * page_size ≤ u32_mod
    → mapped_range
        ((a + page_size) % u32_mod)
        n
        ((pa + page_size) % u32_mod)
        perm
        (λ b. if b / page_size == a / page_size then make_pte pa perm else entry b)
        b
      ≡ mapped_range a (suc n) pa perm entry b
mapped_range-suc zero a pa perm b entry room room' = ground arith
mapped_range-suc (suc n) a pa perm b entry room room' =
    let next : (a + page_size) % u32_mod / page_size ≡ a / page_size + 1 = omega arith in
    let next' : (pa + page_size) % u32_mod ≡ pa + page_size = omega arith in
    rw (next, next') (ground arith)

module _ {F : Type 0} (pgdir perm : ℕ) (flags : perm < page_size) where
  map_loop-Maps :
      (n a pa : ℕ) (k k' : Machine F)
      → IsTable k.kernel_end k.free_pages k.env.0 pgdir
      → a < u32_mod
      → a / page_size + n ≤ 0x10_0000
      → pa + n * page_size ≤ u32_mod
      → pa % page_size ≡ 0
      → map_loop pgdir n a pa perm k ≡ ok (true, k')
      → Maps pgdir (mapped_range a n pa perm (pte_at k.env.0 pgdir)) k k'
  unfolding map_loop
  map_loop-Maps zero a pa k k' is low room room' aligned h =
      let same : k ≡ k' = (ok-pair h).1 in
      rw (sym same) (
        Maps-same pgdir (pte_at k.env.0 pgdir) (mapped_range a 0 pa perm (pte_at k.env.0 pgdir)) k k
          (λ b lowb. ground arith) (Maps-refl pgdir k is))
  map_loop-Maps (suc n) a pa k k' is low room room' aligned h =
      let ((mapped, mid), one, rest) =
        >>=-eq-ok (map_page pgdir a pa perm k)
          (λ r.
            if r.0
            then map_loop pgdir n ((a + page_size) % u32_mod) ((pa + page_size) % u32_mod) perm r.1
            else ok (false, r.1))
          h in
      elim (Bool-cases mapped) [
        | inl good ↦
            let first_page =
              map_page-Maps pgdir a k is pa perm low
                (make_pte_small pa perm aligned (omega arith) flags) mid
                (one ∙ ap (λ m. ok (m, mid)) good) in
            let others =
              map_loop-Maps n _ _ mid k' first_page.table (omega arith) (omega arith) (omega arith)
                (omega arith) (rw good at rest) in
            Maps-trans pgdir _ _ k mid k' first_page (
              Maps-same pgdir _ (mapped_range a (suc n) pa perm (pte_at k.env.0 pgdir)) mid k'
                (λ b lowb.
                  rw (first_page.entries b lowb)
                    (mapped_range-suc n a pa perm b (pte_at k.env.0 pgdir) room room'))
                others)
        | inr bad ↦ absurd (ground arith)
      ]

  -- Where the page table is well formed, the size not 0, `pa` the start of a page, the flags below
  -- a page and neither range passes the end of the 32-bit space: if `mappages` succeeds, the entry
  -- of each page from that of `va` to that of `va + size - 1` names the matching page from `pa` on
  -- with the flags and present, every other entry is as it was, the table is well formed, and no
  -- page that is in use outside of the table lost its bytes.
  pub mappages-Maps :
      (va size pa : ℕ) (k k' : Machine F)
      → IsTable k.kernel_end k.free_pages k.env.0 pgdir
      → 0 < size
      → va + size ≤ u32_mod
      → pa + (va % page_size + size + (page_size - 1)) / page_size * page_size ≤ u32_mod
      → pa % page_size ≡ 0
      → mappages pgdir va size pa perm k ≡ ok (true, k')
      → Maps pgdir
          (mapped_range va
            ((va % page_size + size + (page_size - 1)) / page_size)
            pa
            perm
            (pte_at k.env.0 pgdir))
          k
          k'
  unfolding mappages
  mappages-Maps va size pa k k' is some_bytes room room' aligned h =
      let last : (va + size + u32_mod - 1) % u32_mod ≡ va + size - 1 = omega arith in
      let rounds : ((va + size - 1) / page_size * page_size + u32_mod - va / page_size * page_size)
              % u32_mod
              / page_size
            + 1
          ≡ (va % page_size + size + (page_size - 1)) / page_size =
        omega arith in
      let start : va / page_size * page_size / page_size ≡ va / page_size = omega arith in
      let count = (va % page_size + size + (page_size - 1)) / page_size in
      let entry = pte_at k.env.0 pgdir in
      Maps-same pgdir (mapped_range (va / page_size * page_size) count pa perm entry)
        (mapped_range va count pa perm entry) k k' (λ b lowb. rw start refl)
        (map_loop-Maps count (va / page_size * page_size) pa k k' is (omega arith) (omega arith)
          (omega arith) aligned (rw (last, rounds) at h))
