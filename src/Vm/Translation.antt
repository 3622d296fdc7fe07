-- ===== src/Vm/Translation.antt =====
-- The translation that a page table stands for, and the shape that keeps it one: `walkpgdir` and
-- `mappages` of vm.c change single entries of it.
use xv6_system_calls.Prelude.{
  ℕ, ◌+◌, ◌*◌, ◌%◌, ◌<◌, ◌≡◌, ◌≢◌, ◌⊎◌, refl, sym, ap, ◌∙◌, inl, inr, Bool, true, false, List, [],
  ◌∷◌, arith, ◌==◌, ◌||◌, if◌then◌else◌, Bool-cases, update, update_elsewhere, eq→==, ne→==, ==→eq,
  u32_mod,
}
use xv6_system_calls.Kalloc.FreeList.{IsPage, AllPages}
use xv6_system_calls.Syscall.{load_word}
use xv6_system_calls.Fs.{store_word}
use xv6_system_calls.Fs.Map.{load_word-store_word, load_word-zeros}
use xv6_system_calls.Vm.{Frames, v2p, p2v, pdx, ptx, present, pte_addr}

-- Word `i` of a page.
abbrev pub get_word : Frames → ℕ → ℕ → ℕ
get_word m p i = load_word (m p) (4 * i)

abbrev pub put : Frames → ℕ → ℕ → ℕ → Frames
put m p i w = update m p (store_word (m p) i w)

-- The page that an entry names.
abbrev pub page_of : ℕ → ℕ
page_of pte = p2v (pte_addr pte)

-- The entry for an address, 0 where there is no table for it.
abbrev pub pte_at : Frames → ℕ → ℕ → ℕ
pte_at m pgdir va =
    let pde = get_word m pgdir (pdx va) in
    if present pde then get_word m (page_of pde) (ptx va) else 0

abbrev pub listed : ℕ → List ℕ → Bool
listed v [] = false
listed v (x ∷ xs) = v == x || listed v xs

abbrev pub NoDup : List ℕ → Type 0
NoDup [] = Unit {0}
NoDup (x ∷ xs) = (listed x xs ≡ false) × NoDup xs

-- The directory and its tables are pages, no two are one, and none is free.
pub record IsTable (e : ℕ) (free : List ℕ) (m : Frames) (pgdir : ℕ) : Type 0 where
  pub pages : AllPages e free
  pub once : NoDup free
  pub root : IsPage e pgdir
  pub root_used : listed pgdir free ≡ false
  pub table :
      (i : ℕ) → present (get_word m pgdir i) ≡ true → IsPage e (page_of (get_word m pgdir i))
  pub used :
      (i : ℕ)
      → present (get_word m pgdir i) ≡ true
      → listed (page_of (get_word m pgdir i)) free ≡ false
  pub not_root :
      (i : ℕ) → present (get_word m pgdir i) ≡ true → page_of (get_word m pgdir i) ≢ pgdir
  pub apart :
      (i j : ℕ)
      → present (get_word m pgdir i) ≡ true
      → present (get_word m pgdir j) ≡ true
      → page_of (get_word m pgdir i) ≡ page_of (get_word m pgdir j)
      → i ≡ j

-- A page in use that is neither the directory nor one of its tables.
pub record IsData (free : List ℕ) (m : Frames) (pgdir p : ℕ) : Type 0 where
  pub in_use : listed p free ≡ false
  pub no_root : pgdir ≢ p
  pub no_table : (i : ℕ) → present (get_word m pgdir i) ≡ true → page_of (get_word m pgdir i) ≢ p

-- The entry of `walkpgdir` for a new table names it.
pub new_pde : (e t : ℕ) → IsPage e t → page_of (v2p t + 7) ≡ t
new_pde e t h = omega (arith, h.aligned, h.above_base, h.below_top)

pub new_pde_present : (e t : ℕ) → IsPage e t → present (v2p t + 7) ≡ true
new_pde_present e t h =
    let odd : (v2p t + 7) % 2 ≡ 1 = omega (arith, h.aligned, h.above_base, h.below_top) in
    eq→== ((v2p t + 7) % 2) 1 odd

pub get_word-put :
    (m : Frames) (p i w p' i' : ℕ)
    → w < u32_mod
    → get_word (put m p i w) p' i'
      ≡ (if p' == p then (if i' == i then w else get_word m p i') else get_word m p' i')
get_word-put m p i w p' i' small = elim (Bool-cases (p' == p)) [
  | inl same ↦ rw same (load_word-store_word (m p) i i' w small)
  | inr other ↦ rw other refl
]

word_cleared :
    (m : Frames) (t p i : ℕ)
    → get_word (update m t (λ o. 0)) p i ≡ (if p == t then 0 else get_word m p i)
word_cleared m t p i = elim (Bool-cases (p == t)) [
  | inl same ↦ rw same (load_word-zeros (4 * i))
  | inr other ↦ rw other refl
]

pub listed-false :
    (v x : ℕ) (xs : List ℕ) → listed v (x ∷ xs) ≡ false → (v ≢ x) × (listed v xs ≡ false)
listed-false v x xs h = elim (Bool-cases (v == x)) [
  | inl e ↦ absurd (cc (e, h))
  | inr e ↦ ((λ same. cc (e, eq→== v x same)), cc (e, h))
]

pub listed-cons : (v x : ℕ) (xs : List ℕ) → listed v xs ≡ true → listed v (x ∷ xs) ≡ true
listed-cons v x xs h = ground arith

-- A free page `t` is taken and gets the bytes `f`.
module _ (e t : ℕ) (rest : List ℕ) (m : Frames) (pgdir : ℕ) (f : ℕ → ℕ)
    (is : IsTable e (t ∷ rest) m pgdir) where
  filled_root : (i : ℕ) → get_word (update m t f) pgdir i ≡ get_word m pgdir i
  filled_root i = rw (update_elsewhere m t pgdir f (listed-false pgdir t rest is.root_used).0) refl

  filled_table :
      (i : ℕ)
      → present (get_word m pgdir i) ≡ true
      → update m t f (page_of (get_word m pgdir i)) ≡ m (page_of (get_word m pgdir i))
  filled_table i on =
      update_elsewhere m t (page_of (get_word m pgdir i)) f
        (listed-false (page_of (get_word m pgdir i)) t rest (is.used i on)).0

  pub filled_pte_at : (b : ℕ) → pte_at (update m t f) pgdir b ≡ pte_at m pgdir b
  filled_pte_at b = elim (Bool-cases (present (get_word m pgdir (pdx b)))) [
    | inl on ↦
        rw (filled_root (pdx b), on)
          (ap (λ bytes. load_word bytes (4 * ptx b)) (filled_table (pdx b) on))
    | inr off ↦ rw (filled_root (pdx b), off) refl
  ]

  pub IsTable-filled : IsTable e rest (update m t f) pgdir
  IsTable-filled = record {
    pages = is.pages.1;
    once = is.once.1;
    root = is.root;
    root_used = (listed-false pgdir t rest is.root_used).1;
    table = λ i on. rw (filled_root i) (is.table i (rw (filled_root i) at on));
    used = λ i on.
        rw (filled_root i)
          (listed-false (page_of (get_word m pgdir i)) t rest
            (is.used i (rw (filled_root i) at on))).1;
    not_root = λ i on. rw (filled_root i) (is.not_root i (rw (filled_root i) at on));
    apart = λ i j on on' eq.
        is.apart i j (rw (filled_root i) at on) (rw (filled_root j) at on')
          (rw (filled_root i, filled_root j) at eq);
  }

  pub IsData-fresh : IsData rest (update m t f) pgdir t
  IsData-fresh = record {
    in_use = is.once.0;
    no_root = (listed-false pgdir t rest is.root_used).0;
    no_table = λ i on.
        rw (filled_root i)
          (listed-false (page_of (get_word m pgdir i)) t rest
            (is.used i (rw (filled_root i) at on))).0;
  }

  pub IsData-filled : (p : ℕ) → IsData (t ∷ rest) m pgdir p → IsData rest (update m t f) pgdir p
  IsData-filled p d = record {
    in_use = (listed-false p t rest d.in_use).1;
    no_root = d.no_root;
    no_table = λ i on. rw (filled_root i) (d.no_table i (rw (filled_root i) at on));
  }

-- A free page `t` becomes the table for `x`, where there is none.
module _ (e t : ℕ) (rest : List ℕ) (m : Frames) (pgdir x : ℕ) (is : IsTable e (t ∷ rest) m pgdir)
    (hole : present (get_word m pgdir x) ≡ false) where
  abbrev pub with_table : Frames
  with_table = put (update m t (λ o. 0)) pgdir x (v2p t + 7)

  t_page : IsPage e t
  t_page = is.pages.0

  root_ne : pgdir ≢ t
  root_ne = (listed-false pgdir t rest is.root_used).0

  pde_small : v2p t + 7 < u32_mod
  pde_small = omega (arith, t_page.aligned, t_page.above_base, t_page.below_top)

  with_table-get_word :
      (p i : ℕ)
      → get_word with_table p i ≡ (
          if p == pgdir
          then (if i == x then v2p t + 7 else get_word m pgdir i)
          else if p == t
          then 0
          else get_word m p i)
  with_table-get_word p i =
      get_word-put (update m t (λ o. 0)) pgdir x (v2p t + 7) p i pde_small
      ∙ rw (word_cleared m t pgdir i, word_cleared m t p i, ne→== pgdir t root_ne) refl

  pub root_word :
      (i : ℕ) → get_word with_table pgdir i ≡ (if i == x then v2p t + 7 else get_word m pgdir i)
  root_word i = with_table-get_word pgdir i ∙ rw (eq→== pgdir pgdir refl) refl

  -- A table of the directory that was there before keeps its entries.
  table_word :
      (i j : ℕ)
      → present (get_word m pgdir i) ≡ true
      → get_word with_table (page_of (get_word m pgdir i)) j
        ≡ get_word m (page_of (get_word m pgdir i)) j
  table_word i j here =
      with_table-get_word (page_of (get_word m pgdir i)) j
      ∙ rw
          (
            ne→== (page_of (get_word m pgdir i)) pgdir (is.not_root i here),
            ne→== (page_of (get_word m pgdir i)) t
                (listed-false (page_of (get_word m pgdir i)) t rest (is.used i here)).0,
          )
          refl

  new_word : (j : ℕ) → get_word with_table t j ≡ 0
  new_word j =
      with_table-get_word t j ∙ rw (ne→== t pgdir (λ same. root_ne (sym same)), eq→== t t refl) refl

  pub with_table-pte_at : (b : ℕ) → pte_at with_table pgdir b ≡ pte_at m pgdir b
  with_table-pte_at b = elim (Bool-cases (pdx b == x)) [
    | inl same ↦
        rw
          (
            root_word (pdx b),
            same,
            new_pde_present e t t_page,
            new_pde e t t_page,
            new_word (ptx b),
            ==→eq (pdx b) x same,
            hole,
          )
          refl
    | inr other ↦ elim (Bool-cases (present (get_word m pgdir (pdx b)))) [
      | inl here ↦ rw (root_word (pdx b), other, here) (table_word (pdx b) (ptx b) here)
      | inr gone ↦ rw (root_word (pdx b), other, gone) refl
    ]
  ]

  -- What the directory names now: the new table, or what it named.
  named :
      (i : ℕ)
      → present (get_word with_table pgdir i) ≡ true
      → ((i ≡ x) × (page_of (get_word with_table pgdir i) ≡ t))
        ⊎ ((present (get_word m pgdir i) ≡ true)
            × (page_of (get_word with_table pgdir i) ≡ page_of (get_word m pgdir i)))
  named i here = elim (Bool-cases (i == x)) [
    | inl same ↦ inl (==→eq i x same, rw (root_word i, same) (new_pde e t t_page))
    | inr other ↦
        let word_same : get_word with_table pgdir i ≡ get_word m pgdir i =
          root_word i ∙ rw other refl in
        inr (rw word_same at here, ap page_of word_same)
  ]

  not_t : (i : ℕ) → present (get_word m pgdir i) ≡ true → page_of (get_word m pgdir i) ≢ t
  not_t i here = (listed-false (page_of (get_word m pgdir i)) t rest (is.used i here)).0

  pub IsTable-with_table : IsTable e rest with_table pgdir
  IsTable-with_table = record {
    pages = is.pages.1;
    once = is.once.1;
    root = is.root;
    root_used = (listed-false pgdir t rest is.root_used).1;
    table = λ i here. elim (named i here) [
      | inl (same, new) ↦ rw new t_page
      | inr (old, same) ↦ rw same (is.table i old)
    ];
    used = λ i here. elim (named i here) [
      | inl (same, new) ↦ rw new is.once.0
      | inr (old, same) ↦
          rw same (listed-false (page_of (get_word m pgdir i)) t rest (is.used i old)).1
    ];
    not_root = λ i here. elim (named i here) [
      | inl (same, new) ↦ λ bad. root_ne (sym bad ∙ new)
      | inr (old, same) ↦ λ bad. is.not_root i old (sym same ∙ bad)
    ];
    apart = λ i j here here' eq. elim (named i here) [
      | inl (same, new) ↦ elim (named j here') [
        | inl (same', new') ↦ same ∙ sym same'
        | inr (old', same') ↦ absurd (not_t j old' (sym same' ∙ sym eq ∙ new))
      ]
      | inr (old, same) ↦ elim (named j here') [
        | inl (same', new') ↦ absurd (not_t i old (sym same ∙ eq ∙ new'))
        | inr (old', same') ↦ is.apart i j old old' (sym same ∙ eq ∙ same')
      ]
    ];
  }

  module _ (p : ℕ) (data_page : IsData (t ∷ rest) m pgdir p) where
    p_ne : p ≢ t
    p_ne = (listed-false p t rest data_page.in_use).0

    pub IsData-with_table : IsData rest with_table pgdir p
    IsData-with_table = record {
      in_use = (listed-false p t rest data_page.in_use).1;
      no_root = data_page.no_root;
      no_table = λ i here. elim (named i here) [
        | inl (same, new) ↦ λ bad. p_ne (sym bad ∙ new)
        | inr (old, same) ↦ λ bad. data_page.no_table i old (sym same ∙ bad)
      ];
    }

    pub with_table_frame : with_table p ≡ m p
    with_table_frame =
        update_elsewhere (update m t (λ o. 0)) pgdir p _ (λ same. data_page.no_root (sym same))
        ∙ update_elsewhere m t p (λ o. 0) p_ne
