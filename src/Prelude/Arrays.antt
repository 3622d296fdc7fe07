-- ===== src/Prelude/Arrays.antt =====
-- A C array is a function from the index. A scan is a `for` loop that stops at the first element
-- that passes a test; `count_below` and `sum_below` are for statements about arrays.
use Prim.Native.Nat.{ℕ, zero, suc, ◌+◌, ◌<◌, ◌≤◌}
use mathlib.Core.Path.{◌≡◌, refl}
use mathlib.Core.Logic.{◌≢◌, inl, inr}
use mathlib.Core.Bool.{Bool, true, false}
use mathlib.Core.Option.{Option, none, some}
use native.Mathlib.Omega.{arith}
use native.Mathlib.Decide.{dec_lt}
use xv6_system_calls.Prelude.Tests.{eq→==, ne→==, ◌==◌, if◌then◌else◌, Bool-cases, Option-cases}

abbrev pub update {ℓ} : {A : Type ℓ} → (ℕ → A) → ℕ → A → ℕ → A
update f i v j = if j == i then v else f j

pub update_at {ℓ} : {A : Type ℓ} (f : ℕ → A) (i : ℕ) (v : A) → update f i v i ≡ v
update_at f i v = rw (eq→== i i refl) refl

pub update_elsewhere {ℓ} : {A : Type ℓ} (f : ℕ → A) (i j : ℕ) (v : A) → j ≢ i → update f i v j ≡ f j
update_elsewhere f i j v ne = rw (ne→== j i ne) refl

-- `for (j = i; j < i + n; j++) if (test(j)) break;`
unfoldable pub scan : (ℕ → Bool) → ℕ → ℕ → Option ℕ
scan test zero i = none
scan test (suc n) i = let rest = scan test n (i + 1) in if test i then some i else rest

-- The least index below `n` that passes the test.
unfoldable pub first : (ℕ → Bool) → ℕ → Option ℕ
unfolding scan
first test n = scan test n 0

scan-some :
    (test : ℕ → Bool) (n i j : ℕ) → scan test n i ≡ some j → (i ≤ j) × (j < i + n) × (test j ≡ true)
unfolding scan
scan-some test zero i j h = cc
scan-some test (suc n) i j h = ground (arith, scan-some test n (i + 1) j)

scan_before :
    (test : ℕ → Bool) (n i j m : ℕ) → scan test n i ≡ some j → i ≤ m → m < j → test m ≡ false
unfolding scan
scan_before test zero i j m h p q = cc
scan_before test (suc n) i j m h p q = elim (Bool-cases (test i)) [
  | inl e ↦ absurd (ground arith)
  | inr e ↦ elim (dec_lt i m) [
    | yes l ↦ ground (arith, scan_before test n (i + 1) j m)
    | no l ↦ let same : m ≡ i = omega arith in rw same e
  ]
]

scan-none :
    (test : ℕ → Bool) (n i m : ℕ) → scan test n i ≡ none → i ≤ m → m < i + n → test m ≡ false
unfolding scan
scan-none test zero i m h p q = absurd (omega arith)
scan-none test (suc n) i m h p q = elim (Bool-cases (test i)) [
  | inl e ↦ absurd (ground arith)
  | inr e ↦ elim (dec_lt i m) [
    | yes l ↦ ground (arith, scan-none test n (i + 1) m)
    | no l ↦ let same : m ≡ i = omega arith in rw same e
  ]
]

module _ (test : ℕ → Bool) (n : ℕ) where
  -- What a scan from 0 finds passes the test.
  pub first-some : (j : ℕ) → first test n ≡ some j → (j < n) × (test j ≡ true)
  unfolding first
  first-some j h = ground (arith, scan-some test n 0 j)

  pub first_before : (j m : ℕ) → first test n ≡ some j → m < j → test m ≡ false
  unfolding first
  first_before j m h p = scan_before test n 0 j m h (omega arith) p

  pub first-none : (m : ℕ) → first test n ≡ none → m < n → test m ≡ false
  unfolding first
  first-none m h p = scan-none test n 0 m h (omega arith) (omega arith)

  -- A scan succeeds if some element passes.
  pub first_exists :
      (m : ℕ) → m < n → test m ≡ true → (j : ℕ) × (first test n ≡ some j) × (test j ≡ true)
  first_exists m p e = elim (Option-cases (first test n)) [
    | inl gone ↦ absurd (ground (arith, first-none m))
    | inr (j, found) ↦ (j, found, (first-some j found).1)
  ]

-- The number of indices below `n` that pass the test.
unfoldable pub count_below : (ℕ → Bool) → ℕ → ℕ
count_below test zero = 0
count_below test (suc n) = (if test n then 1 else 0) + count_below test n

unfoldable pub sum_below : (ℕ → ℕ) → ℕ → ℕ
sum_below f zero = 0
sum_below f (suc n) = f n + sum_below f n

count_below-same :
    (s t : ℕ → Bool) (i n : ℕ)
    → n ≤ i
    → ((m : ℕ) → m ≢ i → s m ≡ t m)
    → count_below s n ≡ count_below t n
unfolding count_below
count_below-same s t i zero p same = refl
count_below-same s t i (suc n) p same =
    ground (arith, same n, count_below-same s t i n (omega arith) same)

-- Two tests that agree but at `i` count alike but for `i`.
pub count_below-but_one :
    (s t : ℕ → Bool) (i n : ℕ)
    → i < n
    → ((m : ℕ) → m ≢ i → s m ≡ t m)
    → count_below s n + (if t i then 1 else 0) ≡ count_below t n + (if s i then 1 else 0)
unfolding count_below
count_below-but_one s t i zero p same = absurd (omega arith)
count_below-but_one s t i (suc n) p same = elim (dec_lt i n) [
  | yes l ↦ ground (arith, same n, count_below-but_one s t i n l same)
  | no l ↦
      let e : i ≡ n = omega arith in
      rw e (ground (arith, count_below-same s t i n (omega arith) same))
]

sum_below-same :
    (f g : ℕ → ℕ) (i n : ℕ) → n ≤ i → ((m : ℕ) → m ≢ i → f m ≡ g m) → sum_below f n ≡ sum_below g n
unfolding sum_below
sum_below-same f g i zero p same = refl
sum_below-same f g i (suc n) p same =
    ground (arith, same n, sum_below-same f g i n (omega arith) same)

pub sum_below-but_one :
    (f g : ℕ → ℕ) (i n : ℕ)
    → i < n
    → ((m : ℕ) → m ≢ i → f m ≡ g m)
    → sum_below f n + g i ≡ sum_below g n + f i
unfolding sum_below
sum_below-but_one f g i zero p same = absurd (omega arith)
sum_below-but_one f g i (suc n) p same = elim (dec_lt i n) [
  | yes l ↦ ground (arith, same n, sum_below-but_one f g i n l same)
  | no l ↦
      let e : i ≡ n = omega arith in
      rw e (ground (arith, sum_below-same f g i n (omega arith) same))
]

pub count_below-pos : (t : ℕ → Bool) (i n : ℕ) → i < n → t i ≡ true → 0 < count_below t n
unfolding count_below
count_below-pos t i zero p e = absurd (omega arith)
count_below-pos t i (suc n) p e = elim (dec_lt i n) [
  | yes l ↦ ground (arith, count_below-pos t i n l e)
  | no l ↦ let same : i ≡ n = omega arith in let e' : t n ≡ true = rw same at e in ground arith
]
