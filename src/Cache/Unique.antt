-- ===== src/Cache/Unique.antt =====
-- A block is cached at most once.
use xv6_system_calls.Prelude.{
  ℕ, ◌+◌, ◌≡◌, ◌≢◌, refl, sym, ap, ◌∙◌, Bool, true, false, ◌||◌, ◌%◌, ◌<◌, u32_mod, none, some,
  List, [], ◌∷◌, arith, ◌==◌, Bool-cases, Option-cases, update, eq→==, ==→eq, inl, inr, ok, ok-pair,
}
use xv6_system_calls.Cache.{
  Buf, Cache, find, find_last, caches, unused, bget, get_cached, recycle, set_buf,
}

unfoldable pub listed : ℕ → List ℕ → Bool
listed b [] = false
listed b (x ∷ xs) = (b == x) || listed b xs

-- No two buffers of the list hold the same block of a device other than 0, the device of a buffer
-- that has not been used yet.
abbrev pub IsUnique : {B : Type 0} → Cache B → Type 0
IsUnique c =
    (i j : ℕ)
    → listed i c.order ≡ true
    → listed j c.order ≡ true
    → (c.buf i).dev ≢ 0
    → (c.buf i).dev ≡ (c.buf j).dev
    → (c.buf i).blockno ≡ (c.buf j).blockno
    → i ≡ j

find-some : (test : ℕ → Bool) (l : List ℕ) (b : ℕ) → find test l ≡ some b → test b ≡ true
unfolding find
find-some test [] b h = cc
find-some test (x ∷ xs) b h = ground (arith, find-some test xs b)

find-none :
    (test : ℕ → Bool) (l : List ℕ) (b : ℕ) → find test l ≡ none → listed b l ≡ true → test b ≡ false
unfolding find listed
find-none test [] b h is = cc
find-none test (x ∷ xs) b h is = elim (Bool-cases (b == x)) [
  | inl e ↦ let it : b ≡ x = ==→eq b x e in rw it (ground arith)
  | inr e ↦ ground (arith, find-none test xs b)
]

module _ {B : Type 0} (c : Cache B) (is : IsUnique c) where
  -- A buffer changes, and holds the same block as before.
  set_buf-IsUnique :
      (b : ℕ) (v : Buf B)
      → v.dev ≡ (c.buf b).dev
      → v.blockno ≡ (c.buf b).blockno
      → IsUnique (set_buf c b v)
  set_buf-IsUnique b v dev blockno i j hi hj used same_dev same_block =
      is i j hi hj (λ e. used (dev_of i ∙ e)) (sym (dev_of i) ∙ same_dev ∙ dev_of j)
        (sym (block_of i) ∙ same_block ∙ block_of j)
    where
      dev_of : (x : ℕ) → (update c.buf b v x).dev ≡ (c.buf x).dev
      dev_of x = elim (Bool-cases (x == b)) [
        | inl e ↦ rw e (dev ∙ ap (λ y. (c.buf y).dev) (sym (==→eq x b e)))
        | inr e ↦ rw e refl
      ]

      block_of : (x : ℕ) → (update c.buf b v x).blockno ≡ (c.buf x).blockno
      block_of x = elim (Bool-cases (x == b)) [
        | inl e ↦ rw e (blockno ∙ ap (λ y. (c.buf y).blockno) (sym (==→eq x b e)))
        | inr e ↦ rw e refl
      ]

  -- A buffer is given a block that no buffer of the list holds.
  recycled-IsUnique :
      (b : ℕ) (v : Buf B)
      → ((x : ℕ) → listed x c.order ≡ true → caches c v.dev v.blockno x ≡ false)
      → IsUnique (set_buf c b v)
  recycled-IsUnique b v fresh i j hi hj used same_dev same_block = elim (Bool-cases (i == b)) [
    | inl ei ↦ elim (Bool-cases (j == b)) [
      | inl ej ↦ ==→eq i b ei ∙ sym (==→eq j b ej)
      | inr ej ↦
          let d : v.dev ≡ (c.buf j).dev = rw (ei, ej) at same_dev in
          let n : v.blockno ≡ (c.buf j).blockno = rw (ei, ej) at same_block in
          absurd (ground (arith, fresh j hj, d, n))
    ]
    | inr ei ↦ elim (Bool-cases (j == b)) [
      | inl ej ↦
          let d : (c.buf i).dev ≡ v.dev = rw (ei, ej) at same_dev in
          let n : (c.buf i).blockno ≡ v.blockno = rw (ei, ej) at same_block in
          absurd (ground (arith, fresh i hi, d, n))
      | inr ej ↦ is i j hi hj (rw ei at used) (rw (ei, ej) at same_dev) (rw (ei, ej) at same_block)
    ]
  ]

  -- If no two buffers of the list hold the same block of a device other than 0, and no reference
  -- counter is at its largest value, then after a `bget` that returns still no two of them do; the
  -- buffer that it returns holds the block that was asked for, has a reference, and the list is as
  -- it was.
  pub bget-IsUnique :
      (c' : Cache B) (dev blockno b : ℕ)
      → ((x : ℕ) → (c.buf x).refcnt + 1 < u32_mod)
      → bget dev blockno c ≡ ok (b, c')
      → IsUnique c'
        × (caches c' dev blockno b ≡ true)
        × ((c'.buf b).refcnt ≢ 0)
        × (c'.order ≡ c.order)
  unfolding bget get_cached recycle
  bget-IsUnique c' dev blockno b small run =
      elim (Option-cases (find (caches c dev blockno) c.order)) [
        | inr (x, found) ↦
            let hit = find-some (caches c dev blockno) c.order x found in
            let v : Buf B = record (c.buf x) { refcnt = ((c.buf x).refcnt + 1) % u32_mod } in
            let (it, end) = ok-pair (rw found at run) in
            rw (← it, ← end)
              (
                set_buf-IsUnique x v refl refl,
                rw (eq→== x x refl) hit,
                rw (eq→== x x refl) (λ e. omega (arith, small x, e)),
                refl,
              )
        | inl missing ↦ elim (Option-cases (find_last (unused c) c.order)) [
          | inl full ↦ absurd (cc (rw (missing, full) at run))
          | inr (x, free) ↦
              let v : Buf B = record (c.buf x) {
                dev = dev;
                blockno = blockno;
                valid = false;
                dirty = false;
                refcnt = 1;
              } in
              let (it, end) = ok-pair (rw (missing, free) at run) in
              rw (← it, ← end)
                (
                  recycled-IsUnique x v
                      (λ y hy. find-none (caches c dev blockno) c.order y missing hy),
                  rw (eq→== x x refl, eq→== dev dev refl, eq→== blockno blockno refl) refl,
                  rw (eq→== x x refl) (λ e. omega (arith, e)),
                  refl,
                )
        ]
      ]
