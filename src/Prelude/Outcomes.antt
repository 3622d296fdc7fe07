-- ===== src/Prelude/Outcomes.antt =====
-- Kernel code that may panic, and C's `int`.
use Prim.Native.Nat.{ℕ, ◌+◌, ◌-◌, ◌^◌, ◌%◌}
use Prim.Native.String.{String}
use mathlib.Core.Path.{◌≡◌, refl}
use xv6_system_calls.Prelude.Tests.{ltb, if◌then◌else◌}

-- `panic(s)` does not return.
pub data Outcome {ℓ} (A : Type ℓ) : Type ℓ where
  ok : A → Outcome A
  panic : String → Outcome A

infixl 5 ◌>>=◌
abbrev pub ◌>>=◌ {ℓ κ} :
    {Mid : Type ℓ} {End : Type κ} → Outcome Mid → (Mid → Outcome End) → Outcome End
ok mid >>= next = next mid
panic s >>= next = panic s

-- An `int`: `negsuc n` is -(n + 1).
pub data ℤ : Type 0 where
  pos : ℕ → ℤ
  negsuc : ℕ → ℤ

abbrev pub minus_one : ℤ
minus_one = negsuc 0

abbrev pub u32_mod : ℕ
u32_mod = 2 ^ 32

-- The value of a 32-bit word read as an `int`, and the word of an `int`.
unfoldable pub int_of : ℕ → ℤ
int_of w = if ltb w (2 ^ 31) then pos w else negsuc (u32_mod - 1 - w)

unfoldable pub word_of : ℤ → ℕ
word_of (pos n) = n % u32_mod
word_of (negsuc n) = u32_mod - 1 - n

pub ok-injective {ℓ} : {A : Type ℓ} {a b : A} → ok a ≡ ok b → a ≡ b
ok-injective h = cc

pub ok-pair {ℓ κ} :
    {A : Type ℓ} {B : Type κ} {a a' : A} {b b' : B}
    → ◌≡◌ {A = Outcome (A × B)} (ok (a, b)) (ok (a', b'))
    → (a ≡ a') × (b ≡ b')
ok-pair h = (cc, cc)

-- How far a call that may sleep came: it returned, or sleeps with what it has left to do.
pub data Progress (A : Type 0) (L : Type 0) : Type 0 where
  returned : A → Progress A L
  asleep : L → Progress A L

-- `a - b` on 32-bit words.
abbrev pub sub32 : ℕ → ℕ → ℕ
sub32 a b = (a + u32_mod - b) % u32_mod

-- A chain that returned went through a first part that returned.
pub >>=-eq-ok {ℓ κ} :
    {Mid : Type ℓ} {End : Type κ} (first_part : Outcome Mid) (next : Mid → Outcome End) {out : End}
    → (first_part >>= next) ≡ ok out
    → (mid : Mid) × (first_part ≡ ok mid) × (next mid ≡ ok out)
>>=-eq-ok (ok mid) next run = (mid, refl, run)
>>=-eq-ok (panic s) next run = cc

-- Two binds as one.
pub >>=-fuse {ℓ κ μ} :
    {A : Type ℓ} {B : Type κ} {C : Type μ} (m : Outcome A) (f : A → Outcome B) (g : B → Outcome C)
    (h : A → Outcome C)
    → ((a : A) → (f a >>= g) ≡ h a)
    → ((m >>= f) >>= g) ≡ (m >>= h)
>>=-fuse (ok a) f g h same = same a
>>=-fuse (panic s) f g h same = refl
