-- ===== src/Vm/Grow.antt =====
-- What `allocuvm` of vm.c gives a process: fresh pages of zeros.
use xv6_system_calls.Prelude.{
  ℕ, zero, suc, ◌+◌, ◌-◌, ◌*◌, ◌/◌, ◌%◌, ◌≤◌, ◌<◌, ◌≡◌, ◌≢◌, refl, sym, ap, ◌∙◌, inl, inr, Bool,
  true, false, Option, none, some, List, ◌∷◌, arith, ◌==◌, ◌||◌, ltb, leb, if◌then◌else◌,
  Bool-cases, update, eq→==, ==→eq, u32_mod, ok, ◌>>=◌, ◌⊎◌, List-cases, ok-pair, >>=-eq-ok,
}
use xv6_system_calls.Kalloc.{kernbase, page_size, kalloc, round_up}
use xv6_system_calls.Vm.{Machine, v2p, make_pte, free_page, deallocuvm, mappages, pte_w, pte_u}
use xv6_system_calls.Vm.Translation.{page_of, pte_at, listed, IsTable, IsData, new_pde}
use xv6_system_calls.Vm.Mapping.{Maps, mappages-Maps, inside}
use xv6_system_calls.Vm.User.{add_page, no_memory, alloc_loop, allocuvm}
use xv6_system_calls.Vm.Fresh.{taken, taken-Maps, taken-IsData, taken_page, mapped-Maps}

-- From `k` to `k'` the `n` pages from `a` on were given to user code, each on a page that was free
-- and holds zeros; all else stayed.
pub record Grows {F : Type 0} (pgdir a n : ℕ) (k k' : Machine F) : Type 0 where
  pub table : IsTable k'.kernel_end k'.free_pages k'.env.0 pgdir
  pub outside :
      (b : ℕ)
      → b < u32_mod
      → inside a n b ≡ false
      → pte_at k'.env.0 pgdir b ≡ pte_at k.env.0 pgdir b
  pub user_entry :
      (b : ℕ)
      → b < u32_mod
      → inside a n b ≡ true
      → pte_at k'.env.0 pgdir b ≡ v2p (page_of (pte_at k'.env.0 pgdir b)) + 7
  pub fresh :
      (b : ℕ)
      → b < u32_mod
      → inside a n b ≡ true
      → listed (page_of (pte_at k'.env.0 pgdir b)) k.free_pages ≡ true
  pub owned :
      (b : ℕ)
      → b < u32_mod
      → inside a n b ≡ true
      → IsData k'.free_pages k'.env.0 pgdir (page_of (pte_at k'.env.0 pgdir b))
  pub zeros :
      (b o : ℕ)
      → b < u32_mod
      → inside a n b ≡ true
      → k'.env.0 (page_of (pte_at k'.env.0 pgdir b)) o ≡ 0
  pub apart :
      (b b' : ℕ)
      → b < u32_mod
      → b' < u32_mod
      → inside a n b ≡ true
      → inside a n b' ≡ true
      → page_of (pte_at k'.env.0 pgdir b) ≡ page_of (pte_at k'.env.0 pgdir b')
      → b / page_size ≡ b' / page_size
  pub data_kept :
      (p : ℕ) → IsData k.free_pages k.env.0 pgdir p → IsData k'.free_pages k'.env.0 pgdir p
  pub shrinks : (v : ℕ) → listed v k'.free_pages ≡ true → listed v k.free_pages ≡ true
  pub bytes_kept : (p : ℕ) → IsData k.free_pages k.env.0 pgdir p → k'.env.0 p ≡ k.env.0 p

inside_one : (a b : ℕ) → inside a 1 b ≡ (b / page_size == a / page_size)
inside_one a b = ground arith

-- A page that `allocuvm` adds.
module _ {F : Type 0} (pgdir : ℕ) (k : Machine F)
    (is : IsTable k.kernel_end k.free_pages k.env.0 pgdir) (t : ℕ) (rest : List ℕ)
    (free : k.free_pages ≡ t ∷ rest) (a : ℕ) (k' : Machine F) (aligned : a % page_size ≡ 0)
    (low : a + page_size ≤ u32_mod)
    (run : mappages pgdir a page_size
        (v2p t)
        (pte_w + pte_u)
        (taken pgdir k is t rest (λ o. 0) free)
      ≡ ok (true, k')) where
  added :
      Maps pgdir
        (λ b.
          if b / page_size == a / page_size
          then make_pte (v2p t) (pte_w + pte_u)
          else pte_at k.env.0 pgdir b)
        k
        k'
  added =
      mapped-Maps pgdir k is t rest (λ o. 0) free a (pte_w + pte_u) k' (omega arith) aligned low run

  added_from_taken :
      (p : ℕ)
      → IsData rest (update k.env.0 t (λ o. 0)) pgdir p
      → IsData k'.free_pages k'.env.0 pgdir p × (k'.env.0 p ≡ update k.env.0 t (λ o. 0) p)
  added_from_taken p d =
      let (aligned', above, below) =
        taken_page pgdir k is t rest (λ o. 0) free a (pte_w + pte_u) k' (omega arith) aligned low
          run in
      let maps =
        mappages-Maps pgdir (pte_w + pte_u) (omega arith) a page_size (v2p t)
          (taken pgdir k is t rest (λ o. 0) free) k'
          (taken-Maps pgdir k is t rest (λ o. 0) free).table (omega arith) low (omega arith)
          (omega arith) run in
      (maps.data_kept p d, maps.bytes_kept p d)

  entry_in : (b : ℕ) → b < u32_mod → inside a 1 b ≡ true → pte_at k'.env.0 pgdir b ≡ v2p t + 7
  entry_in b lowb at_a = added.entries b lowb ∙ rw (sym (inside_one a b), at_a) refl

  page_in : (b : ℕ) → b < u32_mod → inside a 1 b ≡ true → page_of (pte_at k'.env.0 pgdir b) ≡ t
  page_in b lowb at_a = rw (entry_in b lowb at_a) (new_pde k.kernel_end t (rw free at is).pages.0)

  added-Grows : Grows pgdir a 1 k k'
  added-Grows =
      let (kept, bytes) = added_from_taken t (taken-IsData pgdir k is t rest (λ o. 0) free) in
      record {
        table = added.table;
        outside = λ b lowb off. added.entries b lowb ∙ rw (sym (inside_one a b), off) refl;
        user_entry = λ b lowb on. rw (page_in b lowb on) (entry_in b lowb on);
        fresh = λ b lowb on. rw (page_in b lowb on, free, eq→== t t refl) refl;
        owned = λ b lowb on. rw (page_in b lowb on) kept;
        zeros = λ b o lowb on. rw (page_in b lowb on, bytes, eq→== t t refl) refl;
        apart = λ b b' lowb lowb' on on' eq.
            ==→eq _ _ (sym (inside_one a b) ∙ on) ∙ sym (==→eq _ _ (sym (inside_one a b') ∙ on'));
        data_kept = added.data_kept;
        shrinks = added.shrinks;
        bytes_kept = added.bytes_kept;
      }

inside_suc : (a n b : ℕ) → inside a (suc n) b ≡ inside a 1 b || inside (a + page_size) n b
inside_suc a n b =
    let next : (a + page_size) / page_size ≡ a / page_size + 1 = omega arith in
    rw next (ground arith)

not_both : (a n b : ℕ) → inside a 1 b ≡ true → inside (a + page_size) n b ≡ false
not_both a n b on =
    let next : (a + page_size) / page_size ≡ a / page_size + 1 = omega arith in
    rw next (ground arith)

-- The first page and the rest of them.
module _ {F : Type 0} (pgdir a n : ℕ) (k mid k' : Machine F) (one : Grows pgdir a 1 k mid)
    (more : Grows pgdir (a + page_size) n mid k') where
  side :
      (b : ℕ)
      → inside a (suc n) b ≡ true
      → (inside a 1 b ≡ true) ⊎ (inside (a + page_size) n b ≡ true)
  side b on = elim (Bool-cases (inside a 1 b)) [
    | inl first ↦ inl first
    | inr later ↦ inr (sym (inside_suc a n b ∙ rw later refl) ∙ on)
  ]

  first_entry :
      (b : ℕ)
      → b < u32_mod
      → inside a 1 b ≡ true
      → pte_at k'.env.0 pgdir b ≡ pte_at mid.env.0 pgdir b
  first_entry b low on = more.outside b low (not_both a n b on)

  first_page :
      (b : ℕ)
      → b < u32_mod
      → inside a 1 b ≡ true
      → page_of (pte_at k'.env.0 pgdir b) ≡ page_of (pte_at mid.env.0 pgdir b)
  first_page b low on = ap page_of (first_entry b low on)

  -- A page of the rest was free when the first page was in use.
  different :
      (b b' : ℕ)
      → b < u32_mod
      → b' < u32_mod
      → inside a 1 b ≡ true
      → inside (a + page_size) n b' ≡ true
      → page_of (pte_at k'.env.0 pgdir b) ≢ page_of (pte_at k'.env.0 pgdir b')
  different b b' low low' on on' eq =
      let used = (one.owned b low on).in_use in
      let free = more.fresh b' low' on' in
      let same : page_of (pte_at mid.env.0 pgdir b) ≡ page_of (pte_at k'.env.0 pgdir b') =
        sym (first_page b low on) ∙ eq in
      cc (used, free, ap (λ p. listed p mid.free_pages) same)

  Grows-suc : Grows pgdir a (suc n) k k'
  Grows-suc = record {
    table = more.table;
    outside = λ b low off.
        let both : inside a 1 b || inside (a + page_size) n b ≡ false =
          sym (inside_suc a n b) ∙ off in
        elim (Bool-cases (inside a 1 b)) [
          | inl first ↦ absurd (cc (rw first at both))
          | inr later ↦ more.outside b low (rw later at both) ∙ one.outside b low later
        ];
    user_entry = λ b low on. elim (side b on) [
      | inl first ↦ rw (first_entry b low first) (one.user_entry b low first)
      | inr later ↦ more.user_entry b low later
    ];
    fresh = λ b low on. elim (side b on) [
      | inl first ↦ rw (first_page b low first) (one.fresh b low first)
      | inr later ↦ one.shrinks _ (more.fresh b low later)
    ];
    owned = λ b low on. elim (side b on) [
      | inl first ↦ rw (first_page b low first) (more.data_kept _ (one.owned b low first))
      | inr later ↦ more.owned b low later
    ];
    zeros = λ b o low on. elim (side b on) [
      | inl first ↦ rw (first_page b low first) (
          ap (λ bytes. bytes o) (more.bytes_kept _ (one.owned b low first))
          ∙ one.zeros b o low first)
      | inr later ↦ more.zeros b o low later
    ];
    apart = λ b b' low low' on on' eq. elim (side b on) [
      | inl first ↦ elim (side b' on') [
        | inl first' ↦
            one.apart b b' low low' first first'
              (sym (first_page b low first) ∙ eq ∙ first_page b' low' first')
        | inr later' ↦ absurd (different b b' low low' first later' eq)
      ]
      | inr later ↦ elim (side b' on') [
        | inl first' ↦ absurd (different b' b low' low first' later (sym eq))
        | inr later' ↦ more.apart b b' low low' later later' eq
      ]
    ];
    data_kept = λ p d. more.data_kept p (one.data_kept p d);
    shrinks = λ v free. one.shrinks v (more.shrinks v free);
    bytes_kept = λ p d. more.bytes_kept p (one.data_kept p d) ∙ one.bytes_kept p d;
  }

module _ {F : Type 0} (pgdir : ℕ) where
  Grows-zero :
      (a : ℕ) (k : Machine F)
      → IsTable k.kernel_end k.free_pages k.env.0 pgdir
      → Grows pgdir a 0 k k
  Grows-zero a k is =
      let none_inside : (b : ℕ) → inside a 0 b ≡ false = λ b. ground arith in
      record {
        table = is;
        outside = λ b low off. refl;
        user_entry = λ b low on. absurd (cc (none_inside b, on));
        fresh = λ b low on. absurd (cc (none_inside b, on));
        owned = λ b low on. absurd (cc (none_inside b, on));
        zeros = λ b o low on. absurd (cc (none_inside b, on));
        apart = λ b b' low low' on on' eq. absurd (cc (none_inside b, on));
        data_kept = λ p d. d;
        shrinks = λ v free. free;
        bytes_kept = λ p d. refl;
      }

  mapped_result :
      (a : ℕ) (k mid k' : Machine F) (t : ℕ) (mapped : Bool)
      → mappages pgdir a page_size (v2p t) (pte_w + pte_u) k ≡ ok (mapped, mid)
      → mapped ≡ true
      → mid ≡ k'
      → mappages pgdir a page_size (v2p t) (pte_w + pte_u) k ≡ ok (true, k')
  mapped_result a k mid k' t mapped run good same =
      run ∙ ap (λ m. ok (m, mid)) good ∙ ap (λ m. ok (true, m)) same

  add_page-Grows :
      (a : ℕ) (k k' : Machine F) (mem : Option ℕ)
      → IsTable k.kernel_end k.free_pages k.env.0 pgdir
      → a % page_size ≡ 0
      → a + page_size ≤ u32_mod
      → add_page pgdir a (kalloc k) ≡ ok (mem, true, k')
      → Grows pgdir a 1 k k'
  unfolding add_page kalloc
  add_page-Grows a k k' mem is aligned low h = elim (List-cases k.free_pages) [
    | inl full ↦ absurd (cc (rw full at h))
    | inr (t, rest, free) ↦
        let ((mapped, mid), run, result) =
          >>=-eq-ok _ (λ r. ok (some t, r.0, r.1)) (rw free at h) in
        let good : mapped ≡ true = cc in
        let same : mid ≡ k' = cc in
        added-Grows pgdir k is t rest free a k' aligned low
          (mapped_result a (taken pgdir k is t rest (λ o. 0) free) mid k' t mapped run good same)
  ]

  no_memory-zero :
      (oldsz newsz r : ℕ) (mem : Option ℕ) (k k' : Machine F)
      → no_memory pgdir oldsz newsz mem k ≡ ok (r, k')
      → r ≡ 0
  unfolding no_memory
  no_memory-zero oldsz newsz r none k k' h =
      let (a, b, result) = >>=-eq-ok (deallocuvm pgdir newsz oldsz k) (λ r. ok (0, r.1)) h in cc
  no_memory-zero oldsz newsz r (some mem) k k' h =
      let (a, b, next) =
        >>=-eq-ok (deallocuvm pgdir newsz oldsz k) (λ r. free_page mem r.1 >>= (λ k. ok (0, k)))
          h in
      let (c, d, result) = >>=-eq-ok (free_page mem a.1) (λ k. ok (0, k)) next in cc

  alloc_loop-Grows :
      (oldsz newsz n a r : ℕ) (k k' : Machine F)
      → IsTable k.kernel_end k.free_pages k.env.0 pgdir
      → a % page_size ≡ 0
      → a + n * page_size ≤ u32_mod
      → r ≢ 0
      → alloc_loop pgdir oldsz newsz n a k ≡ ok (r, k')
      → Grows pgdir a n k k' × (r ≡ newsz)
  unfolding alloc_loop
  alloc_loop-Grows oldsz newsz zero a r k k' is aligned room ne h =
      (rw (sym (ok-pair h).1) (Grows-zero a k is), sym (ok-pair h).0)
  alloc_loop-Grows oldsz newsz (suc n) a r k k' is aligned room ne h =
      let ((mem, mapped, mid), one, rest) =
        >>=-eq-ok (add_page pgdir a (kalloc k))
          (λ r.
            if r.1
            then alloc_loop pgdir oldsz newsz n (a + page_size) r.2
            else no_memory pgdir oldsz newsz r.0 r.2)
          h in
      elim (Bool-cases mapped) [
        | inl good ↦
            let first =
              add_page-Grows a k mid mem is aligned (omega arith)
                (one ∙ ap (λ m. ok (mem, m, mid)) good) in
            let (others, size) =
              alloc_loop-Grows oldsz newsz n (a + page_size) r mid k' first.table (omega arith)
                (omega arith) ne (rw good at rest) in
            (Grows-suc pgdir a n k mid k' first others, size)
        | inr bad ↦ absurd (ne (no_memory-zero oldsz newsz r mem mid k' (rw bad at rest)))
      ]

  -- Where the page table is well formed and the size does not shrink: if `allocuvm` returns a
  -- number other than 0, that is the new size, below KERNBASE, and each page that is new has a
  -- present, writable user entry to a page that was free, holds zeros and is no other new page's;
  -- every other entry and all pages in use are as they were, and the table is well formed.
  pub allocuvm-Grows :
      (oldsz newsz r : ℕ) (k k' : Machine F)
      → IsTable k.kernel_end k.free_pages k.env.0 pgdir
      → oldsz ≤ newsz
      → r ≢ 0
      → allocuvm pgdir oldsz newsz k ≡ ok (r, k')
      → Grows pgdir (round_up oldsz) ((newsz + (page_size - 1) - round_up oldsz) / page_size) k k'
        × (r ≡ newsz)
        × (newsz < kernbase)
  unfolding allocuvm
  allocuvm-Grows oldsz newsz r k k' is bigger ne h = elim (Bool-cases (leb kernbase newsz)) [
    | inl high ↦ absurd (ne (sym (ok-pair (rw high at h)).0))
    | inr fine ↦
        let low : newsz < kernbase = ground arith in
        let no_less : ltb newsz oldsz ≡ false = ground arith in
        let (grows, size) =
          alloc_loop-Grows oldsz newsz ((newsz + (page_size - 1) - round_up oldsz) / page_size)
            (round_up oldsz) r k k' is (omega arith) (omega arith) ne (rw (fine, no_less) at h) in
        (grows, size, low)
  ]
