-- ===== src/Fs/Copy.antt =====
-- Bytes that are copied to an offset: `copy_to` in parts, within a block and outside of it.
use xv6_system_calls.Prelude.{
  ℕ, zero, suc, ◌+◌, ◌-◌, ◌/◌, ◌%◌, ◌≤◌, ◌<◌, ◌≡◌, ◌≢◌, refl, ap, ◌∙◌, inl, inr, false, List, [],
  ◌∷◌, arith, ltb, leb, Bool-cases, lt→ltb, le→ltb, le→leb, length, take, drop,
}
use xv6_system_calls.Fs.{bsize}
use xv6_system_calls.Fs.Content.{bytes_from, nth, copy_to}

pub take_whole : (m : ℕ) (src : List ℕ) → m ≤ length src → length (take m src) ≡ m
take_whole zero src le = refl
take_whole (suc m) [] le = absurd (ground arith)
take_whole (suc m) (x ∷ xs) le = let rest = take_whole m xs (ground arith) in ground arith

pub length-drop : (m : ℕ) (src : List ℕ) → length (drop m src) ≡ length src - m
length-drop zero src = omega arith
length-drop (suc m) [] = omega arith
length-drop (suc m) (x ∷ xs) = length-drop m xs ∙ omega arith

pub nth-take : (m k : ℕ) (src : List ℕ) → k < m → nth (take m src) k ≡ nth src k
nth-take zero k src lt = absurd (omega arith)
nth-take (suc m) k [] lt = refl
nth-take (suc m) zero (x ∷ xs) lt = refl
nth-take (suc m) (suc k) (x ∷ xs) lt = nth-take m k xs (omega arith)

pub nth-drop : (m k : ℕ) (src : List ℕ) → nth (drop m src) k ≡ nth src (m + k)
nth-drop zero k src = let place : 0 + k ≡ k = omega arith in rw place refl
nth-drop (suc m) k [] = refl
nth-drop (suc m) k (x ∷ xs) =
    let place : suc m + k ≡ suc (m + k) = omega arith in nth-drop m k xs ∙ rw place refl

pub copy_to-inside :
    (f : ℕ → ℕ) (o : ℕ) (src : List ℕ) (p : ℕ)
    → o ≤ p
    → p < o + length src
    → copy_to f o src p ≡ nth src (p - o)
copy_to-inside f o src p le lt = rw (le→leb o p le, lt→ltb p (o + length src) lt) refl

pub bytes_from-of :
    (f : ℕ → ℕ) (o : ℕ) (src : List ℕ)
    → ((k : ℕ) → k < length src → f (o + k) ≡ nth src k)
    → bytes_from f o (length src) ≡ src
unfolding bytes_from
bytes_from-of f o [] same = refl
bytes_from-of f o (x ∷ xs) same =
    let start : o + 0 ≡ o = omega arith in
    let head : f o ≡ x = rw start at (same 0 (ground arith)) in
    let tail = bytes_from-of f (o + 1) xs (λ k lt.
      let next : o + suc k ≡ o + 1 + k = omega arith in rw next at (same (suc k) (ground arith))) in
    rw (head, tail) refl

-- A copy in two parts.
pub copy_to-split :
    (f : ℕ → ℕ) (o m : ℕ) (src : List ℕ) (p : ℕ)
    → m ≤ length src
    → copy_to (copy_to f o (take m src)) (o + m) (drop m src) p ≡ copy_to f o src p
copy_to-split f o m src p le =
    let taken = take_whole m src le in
    let left = length-drop m src in
    elim (Bool-cases (leb (o + m) p)) [
      | inl e ↦
          let past : o + m ≤ p = ground arith in
          let place : m + (p - (o + m)) ≡ p - o = omega arith in
          let same = nth-drop m (p - (o + m)) src ∙ ap (nth src) place in ground arith
      | inr e ↦
          let before : p < o + m = ground arith in
          elim (Bool-cases (leb o p)) [
            | inl e' ↦
                let same = nth-take m (p - o) src (ground arith) in
                let inside : p < o + length src = ground arith in
                rw (e, e', taken, lt→ltb p (o + m) before, lt→ltb p (o + length src) inside) same
            | inr e' ↦ rw (e, e') refl
          ]
    ]

pub copy_to-block :
    (f g : ℕ → ℕ) (off pos : ℕ) (src : List ℕ)
    → pos / bsize ≡ off / bsize
    → g (pos % bsize) ≡ f pos
    → copy_to g (off % bsize) src (pos % bsize) ≡ copy_to f off src pos
copy_to-block f g off pos src here same =
    let start : leb (off % bsize) (pos % bsize) ≡ leb off pos = ground arith in
    let end : ltb (pos % bsize) (off % bsize + length src) ≡ ltb pos (off + length src) =
      ground arith in
    elim (Bool-cases (leb off pos)) [
      | inl e ↦
          let place : pos % bsize - off % bsize ≡ pos - off = ground arith in
          rw (start, end, place, same) refl
      | inr e ↦ rw (start, e, same) refl
    ]

pub copy_to-outside :
    (f : ℕ → ℕ) (off : ℕ) (src : List ℕ) (pos : ℕ)
    → pos / bsize ≢ off / bsize
    → off % bsize + length src ≤ bsize
    → copy_to f off src pos ≡ f pos
copy_to-outside f off src pos away within = elim (Bool-cases (leb off pos)) [
  | inl e ↦
      let after : ltb pos (off + length src) ≡ false =
        le→ltb pos (off + length src) (ground arith) in
      rw (e, after) refl
  | inr e ↦ rw e refl
]

pub copy_to-empty :
    (f : ℕ → ℕ) (o : ℕ) (src : List ℕ) (p : ℕ) → length src ≡ 0 → copy_to f o src p ≡ f p
copy_to-empty f o src p empty = elim (Bool-cases (leb o p)) [
  | inl e ↦
      let after : ltb p (o + length src) ≡ false = le→ltb p (o + length src) (ground arith) in
      rw (e, after) refl
  | inr e ↦ rw e refl
]
