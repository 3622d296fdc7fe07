-- ===== src/Fs/Names.antt =====
-- What `skipelem` puts into `name`.
use xv6_system_calls.Prelude.{
  ℕ, zero, suc, ◌+◌, ◌-◌, ◌≤◌, ◌<◌, ◌≡◌, refl, sym, ap, ◌∙◌, inl, inr, List, [], ◌∷◌, ◌++◌, ◌==◌,
  leb, Bool-cases, arith, length, length-append, take, ==→eq,
}
use xv6_system_calls.Fs.Content.{nth}
use xv6_system_calls.Fs.Copy.{take_whole, nth-take, copy_to-inside}
use xv6_system_calls.Fs.Directory.{dirsiz}
use xv6_system_calls.Fs.Path.{set_name}

nth-end : (s : List ℕ) → nth (s ++ 0 ∷ []) (length s) ≡ 0
nth-end [] = refl
nth-end (x ∷ xs) = nth-end xs

nth-front : (s t : List ℕ) (k : ℕ) → k < length s → nth (s ++ t) k ≡ nth s k
nth-front [] t k lt = absurd (ground arith)
nth-front (x ∷ xs) t zero lt = refl
nth-front (x ∷ xs) t (suc k) lt = nth-front xs t k (ground arith)

-- `name` holds the element, cut off at DIRSIZ bytes, and a NUL where there is room for one.
abbrev pub name_of : List ℕ → List ℕ
name_of e = take dirsiz (e ++ 0 ∷ [])

length-take : (m : ℕ) (l : List ℕ) → (length (take m l) ≤ m) × (length (take m l) ≤ length l)
length-take zero l = (omega arith, omega arith)
length-take (suc m) [] = (omega arith, omega arith)
length-take (suc m) (x ∷ xs) = let rest = length-take m xs in (ground arith, ground arith)

pub set_name-name_of :
    (s : List ℕ) (name : ℕ → ℕ) (k : ℕ)
    → k < length (name_of s)
    → set_name s name k ≡ nth (name_of s) k
unfolding set_name
set_name-name_of s name k lt =
    let whole : List ℕ = s ++ 0 ∷ [] in
    let (low, short) = length-take dirsiz whole in
    let longer : length whole ≡ length s + 1 = length-append s (0 ∷ []) in
    let cut = nth-take dirsiz k whole (omega arith) in
    elim (Bool-cases (leb dirsiz (length s))) [
      | inl e ↦
          let room : dirsiz ≤ length s = ground arith in
          let taken = take_whole dirsiz s room in
          let here =
            copy_to-inside name 0 (take dirsiz s) k (omega arith) (rw taken (omega arith)) in
          let at_start : k - 0 ≡ k = omega arith in
          rw e (
            here
            ∙ ap (nth (take dirsiz s)) at_start
            ∙ nth-take dirsiz k s (omega arith)
            ∙ sym (nth-front s (0 ∷ []) k (omega arith))
            ∙ sym cut)
      | inr e ↦ elim (Bool-cases (k == length s)) [
        | inl end ↦
            let place : k ≡ length s = ==→eq k (length s) end in
            rw (e, end) (sym (cut ∙ ap (nth whole) place ∙ nth-end s))
        | inr before ↦
            let inside : k < length s = ground arith in
            let at_start : k - 0 ≡ k = omega arith in
            rw (e, before)
              (copy_to-inside name 0 s k (omega arith) (omega arith)
                ∙ ap (nth s) at_start
                ∙ sym (nth-front s (0 ∷ []) k inside)
                ∙ sym cut)
      ]
    ]
