-- ===== src/Vm/Copy.antt =====
-- What `copyuvm` of vm.c gives a child: a copy of each page of its parent.
use xv6_system_calls.Prelude.{
  ℕ, zero, suc, ◌+◌, ◌-◌, ◌*◌, ◌/◌, ◌%◌, ◌≤◌, ◌<◌, ◌≡◌, ◌≢◌, refl, sym, ap, ◌∙◌, inl, inr, true,
  false, Option, none, some, List, ◌∷◌, arith, ◌==◌, if◌then◌else◌, Bool-cases, eq→==, ne→==,
  u32_mod, ok, ◌⊎◌, List-cases, ok-pair, >>=-eq-ok, eq_of_some,
}
use native.Mathlib.Decide.{dec_lt}
use xv6_system_calls.Kalloc.{kernbase, page_size, kalloc}
use xv6_system_calls.Kalloc.FreeList.{IsPage}
use xv6_system_calls.Vm.{
  Frames, Machine, v2p, pdx, ptx, present, pte_flags, make_pte, walkpgdir, mappages,
}
use xv6_system_calls.Vm.Translation.{get_word, page_of, pte_at, listed, IsTable, IsData}
use xv6_system_calls.Vm.Mapping.{Maps}
use xv6_system_calls.Vm.Fresh.{taken, mapped-Maps, mapped_page}
use xv6_system_calls.Vm.Setup.{
  Makes, Makes-Maps, NoUser, none-some, gave_up, setupkvm-Makes, AreKernelMaps,
}
use xv6_system_calls.Vm.User.{
  Kmap, give_up, setupkvm, copy_page, copy_entry, copy_loop, copy_pages, copyuvm,
}

-- The page and the flags of an entry.
make_pte_page :
    (e t flags : ℕ) → IsPage e t → flags < page_size → page_of (make_pte (v2p t) flags) ≡ t
make_pte_page e t flags page low = ground (arith, page.aligned, page.above_base, page.below_top)

-- The first `n` pages of a process are in the table `d`, each on its own page with the same flags
-- and bytes.
pub record Copies {F : Type 0} (pgdir d n : ℕ) (k0 k' : Machine F) : Type 0 where
  pub made : Makes d k0 k'
  pub there : (b : ℕ) → b / page_size < n → present (pte_at k0.env.0 pgdir b) ≡ true
  pub entry :
      (b : ℕ)
      → b / page_size < n
      → pte_at k'.env.0 d b
        ≡ make_pte (v2p (page_of (pte_at k'.env.0 d b))) (pte_flags (pte_at k0.env.0 pgdir b))
  pub fresh :
      (b : ℕ) → b / page_size < n → listed (page_of (pte_at k'.env.0 d b)) k0.free_pages ≡ true
  pub owned :
      (b : ℕ) → b / page_size < n → IsData k'.free_pages k'.env.0 d (page_of (pte_at k'.env.0 d b))
  pub same_bytes :
      (b : ℕ)
      → b / page_size < n
      → k'.env.0 (page_of (pte_at k'.env.0 d b)) ≡ k0.env.0 (page_of (pte_at k0.env.0 pgdir b))
  pub apart :
      (b b' : ℕ)
      → b / page_size < n
      → b' / page_size < n
      → page_of (pte_at k'.env.0 d b) ≡ page_of (pte_at k'.env.0 d b')
      → b / page_size ≡ b' / page_size
  pub no_more : (b : ℕ) → n ≤ b / page_size → b < kernbase → pte_at k'.env.0 d b ≡ 0

-- Addresses in one page share their entry.
same_entry :
    (m : Frames) (pgdir a b : ℕ)
    → a / page_size ≡ b / page_size
    → pte_at m pgdir a ≡ pte_at m pgdir b
same_entry m pgdir a b same =
    let table_index : pdx a ≡ pdx b = omega (arith, same) in
    let page_index : ptx a ≡ ptx b = omega (arith, same) in rw (table_index, page_index) refl

-- One page more, of the parent's page at `a`.
module _ {F : Type 0} (pgdir d n : ℕ) (k0 k : Machine F) (copies : Copies pgdir d n k0 k)
    (low : n < kernbase / page_size)
    (source_used : (b : ℕ)
      → b < kernbase
      → present (pte_at k0.env.0 pgdir b) ≡ true
      → listed (page_of (pte_at k0.env.0 pgdir b)) k0.free_pages ≡ false)
    (present_here : present (pte_at k0.env.0 pgdir (n * page_size)) ≡ true) (t : ℕ) (rest : List ℕ)
    (free : k.free_pages ≡ t ∷ rest) (k' : Machine F) where
  abbrev old_pte : ℕ
  old_pte = pte_at k0.env.0 pgdir (n * page_size)

  abbrev with_page : Machine F
  with_page = taken d k copies.made.table t rest (k.env.0 (page_of old_pte)) free

  module _
      (run : mappages d (n * page_size) page_size (v2p t) (pte_flags old_pte) with_page
        ≡ ok (true, k')) where
    flags_small : pte_flags old_pte < page_size
    flags_small = omega arith

    page_start : n * page_size % page_size ≡ 0
    page_start = omega arith

    page_end : n * page_size + page_size ≤ u32_mod
    page_end = omega (arith, low)

    copied-Maps :
        Maps d
          (λ b.
            if b / page_size == n * page_size / page_size
            then make_pte (v2p t) (pte_flags old_pte)
            else pte_at k.env.0 d b)
          k
          k'
    copied-Maps =
        mapped-Maps d k copies.made.table t rest (k.env.0 (page_of old_pte)) free (n * page_size)
          (pte_flags old_pte) k' flags_small page_start page_end run

    copied_page : IsData k'.free_pages k'.env.0 d t × (k'.env.0 t ≡ k.env.0 (page_of old_pte))
    copied_page =
        mapped_page d k copies.made.table t rest (k.env.0 (page_of old_pte)) free (n * page_size)
          (pte_flags old_pte) k' flags_small page_start page_end run

    t_page : IsPage k.kernel_end t
    t_page = (rw free at copies.made.table.pages).0

    t_free : listed t k.free_pages ≡ true
    t_free = rw (free, eq→== t t refl) refl

    earlier : (b : ℕ) → b / page_size < n → pte_at k'.env.0 d b ≡ pte_at k.env.0 d b
    earlier b lt =
        copied-Maps.entries b (omega (arith, low, lt))
        ∙ rw
            (ne→== (b / page_size) (n * page_size / page_size) (λ e. absurd (omega (arith, e, lt))))
            refl

    here : (b : ℕ) → b / page_size ≡ n → pte_at k'.env.0 d b ≡ make_pte (v2p t) (pte_flags old_pte)
    here b e =
        copied-Maps.entries b (omega (arith, low, e))
        ∙ rw (eq→== (b / page_size) (n * page_size / page_size) (omega (arith, e))) refl

    here_page : (b : ℕ) → b / page_size ≡ n → page_of (pte_at k'.env.0 d b) ≡ t
    here_page b e =
        ap page_of (here b e) ∙ make_pte_page k.kernel_end t (pte_flags old_pte) t_page flags_small

    old_entry : (b : ℕ) → b / page_size ≡ n → pte_at k0.env.0 pgdir b ≡ old_pte
    old_entry b e = same_entry k0.env.0 pgdir b (n * page_size) (omega (arith, e))

    source_bytes : k.env.0 (page_of old_pte) ≡ k0.env.0 (page_of old_pte)
    source_bytes =
        copies.made.bytes_kept (page_of old_pte)
          (source_used (n * page_size) (omega (arith, low)) present_here)

    not_shared : (b : ℕ) → b / page_size < n → page_of (pte_at k'.env.0 d b) ≢ t
    not_shared b lt eq =
        let used = (copies.owned b lt).in_use in
        let same : page_of (pte_at k.env.0 d b) ≡ t = ap page_of (sym (earlier b lt)) ∙ eq in
        cc (used, t_free, ap (λ p. listed p k.free_pages) same)

    side : (b : ℕ) → b / page_size < n + 1 → (b / page_size < n) ⊎ (b / page_size ≡ n)
    side b lt = elim (dec_lt (b / page_size) n) [
      | yes l ↦ inl l
      | no l ↦ inr (omega (arith, l, lt))
    ]

    Copies-suc : Copies pgdir d (n + 1) k0 k'
    Copies-suc = record {
      made = Makes-Maps d _ k0 k k' copies.made copied-Maps;
      there = λ b lt. elim (side b lt) [
        | inl before ↦ copies.there b before
        | inr e ↦ rw (old_entry b e) present_here
      ];
      entry = λ b lt. elim (side b lt) [
        | inl before ↦ rw (earlier b before) (copies.entry b before)
        | inr e ↦ here b e ∙ rw (here_page b e, old_entry b e) refl
      ];
      fresh = λ b lt. elim (side b lt) [
        | inl before ↦ rw (earlier b before) (copies.fresh b before)
        | inr e ↦ rw (here_page b e) (copies.made.shrinks t t_free)
      ];
      owned = λ b lt. elim (side b lt) [
        | inl before ↦ rw (earlier b before) (copied-Maps.data_kept _ (copies.owned b before))
        | inr e ↦ rw (here_page b e) copied_page.0
      ];
      same_bytes = λ b lt. elim (side b lt) [
        | inl before ↦
            rw (earlier b before)
              (copied-Maps.bytes_kept _ (copies.owned b before) ∙ copies.same_bytes b before)
        | inr e ↦ rw (here_page b e, old_entry b e) (copied_page.1 ∙ source_bytes)
      ];
      apart = λ b b' lt lt' eq. elim (side b lt) [
        | inl before ↦ elim (side b' lt') [
          | inl before' ↦
              copies.apart b b' before before'
                (ap page_of (sym (earlier b before)) ∙ eq ∙ ap page_of (earlier b' before'))
          | inr e' ↦ absurd (not_shared b before (eq ∙ here_page b' e'))
        ]
        | inr e ↦ elim (side b' lt') [
          | inl before' ↦ absurd (not_shared b' before' (sym eq ∙ here_page b e))
          | inr e' ↦ e ∙ sym e'
        ]
      ];
      no_more = λ b above under.
          copied-Maps.entries b (omega (arith, under))
          ∙ rw
              (ne→== (b / page_size) (n * page_size / page_size)
                (λ e. absurd (omega (arith, e, above))))
              (copies.no_more b (omega (arith, above)) under);
    }

-- The loop of `copyuvm` reads the parent's table as it was.
module _ {F : Type 0} (pgdir d : ℕ) (k0 : Machine F)
    (parent : IsTable k0.kernel_end k0.free_pages k0.env.0 pgdir)
    (source_used : (b : ℕ)
      → b < kernbase
      → present (pte_at k0.env.0 pgdir b) ≡ true
      → listed (page_of (pte_at k0.env.0 pgdir b)) k0.free_pages ≡ false) where
  copy_entry-page :
      (a : ℕ) (k k' : Machine F)
      → Makes d k0 k
      → copy_entry d a (walkpgdir pgdir a false k).0 k ≡ ok (true, k')
      → (present (pte_at k0.env.0 pgdir a) ≡ true)
        × (copy_page d a (pte_at k0.env.0 pgdir a) (kalloc k) ≡ ok (true, k'))
  unfolding copy_entry walkpgdir
  copy_entry-page a k k' made h =
      let root : k.env.0 pgdir ≡ k0.env.0 pgdir = made.bytes_kept pgdir parent.root_used in
      elim (Bool-cases (present (get_word k0.env.0 pgdir (pdx a)))) [
        | inl on ↦
            let table =
              made.bytes_kept (page_of (get_word k0.env.0 pgdir (pdx a)))
                (parent.used (pdx a) on) in
            let run = rw (root, on, table) at h in
            elim (Bool-cases
              (present (get_word k0.env.0 (page_of (get_word k0.env.0 pgdir (pdx a))) (ptx a)))) [
                | inl shown ↦ (rw on shown, rw on (rw shown at run))
                | inr gone ↦ absurd (cc (rw gone at run))
              ]
        | inr off ↦ absurd (cc (rw (root, off) at h))
      ]

  copy_entry-Copies :
      (n : ℕ) (k k' : Machine F)
      → Copies pgdir d n k0 k
      → n < kernbase / page_size
      → copy_entry d (n * page_size) (walkpgdir pgdir (n * page_size) false k).0 k ≡ ok (true, k')
      → Copies pgdir d (n + 1) k0 k'
  unfolding copy_page kalloc
  copy_entry-Copies n k k' copies low h =
      let (shown, run) = copy_entry-page (n * page_size) k k' copies.made h in
      elim (List-cases k.free_pages) [
        | inl full ↦ absurd (cc (ok-pair (rw full at run)).0)
        | inr (t, rest, free) ↦
            Copies-suc pgdir d n k0 k copies low source_used shown t rest free k' (rw free at run)
      ]

  copy_loop-Copies :
      (m n : ℕ) (k k' : Machine F) (d' : ℕ)
      → Copies pgdir d n k0 k
      → n + m ≤ kernbase / page_size
      → copy_loop pgdir d m (n * page_size) k ≡ ok (some d', k')
      → (d' ≡ d) × Copies pgdir d (n + m) k0 k'
  unfolding copy_loop
  copy_loop-Copies zero n k k' d' copies low h =
      let whole : n + 0 ≡ n = omega arith in
      (eq_of_some (sym (ok-pair h).0), rw (whole, sym (ok-pair h).1) copies)
  copy_loop-Copies (suc m) n k k' d' copies low h =
      let ((copied, mid), one, rest) =
        >>=-eq-ok (copy_entry d (n * page_size) (walkpgdir pgdir (n * page_size) false k).0 k)
          (λ r. if r.0 then copy_loop pgdir d m (n * page_size + page_size) r.1 else give_up d r.1)
          h in
      elim (Bool-cases copied) [
        | inl good ↦
            let next =
              copy_entry-Copies n k mid copies (omega (arith, low))
                (one ∙ ap (λ b. ok (b, mid)) good) in
            let step : n * page_size + page_size ≡ (n + 1) * page_size = omega arith in
            let sum : n + 1 + m ≡ n + suc m = omega arith in
            let (same, all) =
              copy_loop-Copies m (n + 1) mid k' d' next (omega (arith, low))
                (rw (good, step) at rest) in
            (same, rw sum at all)
        | inr bad ↦ absurd (gave_up d mid k' d' (rw bad at rest))
      ]

none_copied :
    {F : Type 0} (pgdir d : ℕ) (k0 k : Machine F)
    → Makes d k0 k
    → NoUser d k
    → Copies pgdir d 0 k0 k
none_copied pgdir d k0 k made no_user = record {
  made = made;
  there = λ b lt. absurd (omega (arith, lt));
  entry = λ b lt. absurd (omega (arith, lt));
  fresh = λ b lt. absurd (omega (arith, lt));
  owned = λ b lt. absurd (omega (arith, lt));
  same_bytes = λ b lt. absurd (omega (arith, lt));
  apart = λ b b' lt lt' eq. absurd (omega (arith, lt));
  no_more = λ b above under. no_user b under;
}

module _ {F : Type 0} (kmap : List Kmap) (pgdir sz d : ℕ) (k k' : Machine F)
    (are : AreKernelMaps kmap) (parent : IsTable k.kernel_end k.free_pages k.env.0 pgdir)
    (source_used : (b : ℕ)
      → b < kernbase
      → present (pte_at k.env.0 pgdir b) ≡ true
      → listed (page_of (pte_at k.env.0 pgdir b)) k.free_pages ≡ false)
    (room : sz ≤ kernbase) where
  copy_pages-Copies :
      (found : Option ℕ) (mid : Machine F)
      → setupkvm kmap k ≡ ok (found, mid)
      → copy_pages pgdir sz (found, mid) ≡ ok (some d, k')
      → Copies pgdir d ((sz + (page_size - 1)) / page_size) k k' × (listed d k.free_pages ≡ true)
  unfolding copy_pages
  copy_pages-Copies none mid one rest = absurd (none-some (ok-pair rest).0)
  copy_pages-Copies (some d') mid one rest =
      let (made, no_user, free) = setupkvm-Makes kmap k mid d' are parent.pages parent.once one in
      let (same, all) =
        copy_loop-Copies pgdir d' k parent source_used ((sz + (page_size - 1)) / page_size) 0 mid k'
          d (none_copied pgdir d' k mid made no_user) (omega (arith, room)) rest in
      let whole : 0 + (sz + (page_size - 1)) / page_size ≡ (sz + (page_size - 1)) / page_size =
        omega arith in
      (rw (whole, sym same) at all, rw same free)

  -- Where the parent's table is well formed, no page that it maps for the user is free, the
  -- kernel's mappings lie above KERNBASE and the size is at most KERNBASE: if `copyuvm` returns a
  -- table, its directory was free and it is well formed; each page of the parent's size is present
  -- in the parent and mapped in the child to a page of its own that was free, with the parent's
  -- flags and bytes; below KERNBASE nothing else is mapped; and every page that was in use, the
  -- parent's among them, has the bytes that it had and is no part of the child's table.
  pub copyuvm-Copies :
      copyuvm kmap pgdir sz k ≡ ok (some d, k')
      → Copies pgdir d ((sz + (page_size - 1)) / page_size) k k' × (listed d k.free_pages ≡ true)
  unfolding copyuvm
  copyuvm-Copies h =
      let (r, one, rest) = >>=-eq-ok (setupkvm kmap k) (λ r. copy_pages pgdir sz r) h in
      copy_pages-Copies r.0 r.1 one rest
