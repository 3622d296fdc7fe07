-- ===== src/Vm/Entry.antt =====
-- A word that `mappages` of vm.c stores in a table, and what it does to the translation.
use xv6_system_calls.Prelude.{
  ℕ, ◌/◌, ◌<◌, ◌≡◌, ◌≢◌, refl, sym, ◌∙◌, inl, inr, true, false, List, arith, ◌==◌, if◌then◌else◌,
  Bool-cases, update_elsewhere, eq→==, ne→==, ==→eq, u32_mod,
}
use xv6_system_calls.Kalloc.{page_size}
use xv6_system_calls.Vm.{Frames, pdx, ptx, present}
use xv6_system_calls.Vm.Translation.{get_word, put, page_of, pte_at, get_word-put, IsTable, IsData}

-- A word stored in the table of `a`.
module _ (e : ℕ) (free : List ℕ) (m : Frames) (pgdir a w : ℕ) (is : IsTable e free m pgdir)
    (here : present (get_word m pgdir (pdx a)) ≡ true) (small : w < u32_mod) where
  abbrev pub tab : ℕ
  tab = page_of (get_word m pgdir (pdx a))

  abbrev pub with_entry : Frames
  with_entry = put m tab (ptx a) w

  pub with_entry_root : (i : ℕ) → get_word with_entry pgdir i ≡ get_word m pgdir i
  with_entry_root i =
      get_word-put m tab (ptx a) w pgdir i small
      ∙ rw (ne→== pgdir tab (λ same. is.not_root (pdx a) here (sym same))) refl

  -- Two addresses share both indices where they lie in one page.
  same_page :
      (b : ℕ)
      → a < u32_mod
      → b < u32_mod
      → pdx b ≡ pdx a
      → (ptx b == ptx a) ≡ (b / page_size == a / page_size)
  same_page b low low' same = ground arith

  other_page : (b : ℕ) → pdx b ≢ pdx a → (b / page_size == a / page_size) ≡ false
  other_page b ne = ne→== (b / page_size) (a / page_size) (λ same. ne (omega arith))

  pub with_entry-pte_at :
      (b : ℕ)
      → a < u32_mod
      → b < u32_mod
      → pte_at with_entry pgdir b ≡ (if b / page_size == a / page_size then w else pte_at m pgdir b)
  with_entry-pte_at b low low' = elim (Bool-cases (pdx b == pdx a)) [
    | inl same ↦
        rw (with_entry_root (pdx b), ==→eq (pdx b) (pdx a) same, here)
          (get_word-put m tab (ptx a) w tab (ptx b) small
            ∙ rw (eq→== tab tab refl, same_page b low low' (==→eq (pdx b) (pdx a) same)) refl)
    | inr other ↦ elim (Bool-cases (present (get_word m pgdir (pdx b)))) [
      | inl there ↦
          rw
            (
              with_entry_root (pdx b),
              there,
              other_page b (λ eq. cc (other, eq→== (pdx b) (pdx a) eq)),
            )
            (get_word-put m tab (ptx a) w (page_of (get_word m pgdir (pdx b))) (ptx b) small
              ∙ rw
                  (ne→== (page_of (get_word m pgdir (pdx b))) tab (λ eq.
                    cc (other, eq→== (pdx b) (pdx a) (is.apart (pdx b) (pdx a) there here eq))))
                  refl)
      | inr gone ↦
          rw
            (
              with_entry_root (pdx b),
              gone,
              other_page b (λ eq. cc (other, eq→== (pdx b) (pdx a) eq)),
            )
            refl
    ]
  ]

  pub IsTable-with_entry : IsTable e free with_entry pgdir
  IsTable-with_entry = record {
    pages = is.pages;
    once = is.once;
    root = is.root;
    root_used = is.root_used;
    table = λ i on. rw (with_entry_root i) (is.table i (rw (with_entry_root i) at on));
    used = λ i on. rw (with_entry_root i) (is.used i (rw (with_entry_root i) at on));
    not_root = λ i on. rw (with_entry_root i) (is.not_root i (rw (with_entry_root i) at on));
    apart = λ i j on on' eq.
        is.apart i j (rw (with_entry_root i) at on) (rw (with_entry_root j) at on')
          (rw (with_entry_root i, with_entry_root j) at eq);
  }

  module _ (p : ℕ) (data_page : IsData free m pgdir p) where
    pub IsData-with_entry : IsData free with_entry pgdir p
    IsData-with_entry = record {
      in_use = data_page.in_use;
      no_root = data_page.no_root;
      no_table =
          λ i on. rw (with_entry_root i) (data_page.no_table i (rw (with_entry_root i) at on));
    }

    pub with_entry_frame : with_entry p ≡ m p
    with_entry_frame =
        update_elsewhere m tab p _ (λ same. data_page.no_table (pdx a) here (sym same))
