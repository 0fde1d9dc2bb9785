-- ===== src/Bits.antt =====
-- The bit operations that the kernel applies to addresses and page entries, as arithmetic: `&` with
-- a mask of low bits or of high bits, and `|` of disjoint fields.
mod Step
pub mod Byte
use Step.{bit_and_step, bit_or_step}
use native.Mathlib.Nat.{pow-suc, mod-lt, div-add-mod', one-le-pow}
use toyix.Prelude.{
  ℕ, zero, suc, ◌+◌, ◌-◌, ◌*◌, ◌/◌, ◌%◌, ◌^◌, ◌≤◌, ◌<◌, bit_and, bit_or, ◌≡◌, refl, ap, arith,
}

-- `k` ones.
abbrev ones : ℕ → ℕ
ones zero = 0
ones (suc k) = ones k * 2 + 1

double : (q k : ℕ) → q * 2 ^ suc k ≡ 2 * (q * 2 ^ k)
double q k = omega (arith, ap (λ (t : ℕ). q * t) (pow-suc 2 k))

-- A bound on the size of the first operand serves as fuel.
and-zero : (n x : ℕ) → x ≤ n → bit_and x 0 ≡ 0
and-zero n zero h = refl
and-zero zero (suc x) h = absurd (omega arith)
and-zero (suc n) (suc x) h =
    omega (arith, bit_and_step (suc x) 0, and-zero n (suc x / 2) (omega arith))

or-zero : (n x : ℕ) → x ≤ n → bit_or x 0 ≡ x
or-zero n zero h = refl
or-zero zero (suc x) h = absurd (omega arith)
or-zero (suc n) (suc x) h =
    omega (arith, bit_or_step (suc x) 0, or-zero n (suc x / 2) (omega arith))

and-ones : (k q r : ℕ) → r < 2 ^ k → bit_and (q * 2 ^ k + r) (ones k) ≡ r
and-ones zero q r h = omega (arith, and-zero (q * 1 + r) (q * 1 + r) (omega arith))
and-ones (suc k) q r h = ground (
  arith,
  bit_and_step (q * 2 ^ suc k + r) (ones (suc k)),
  double q k,
  pow-suc 2 k,
  and-ones k q (r / 2) (omega (arith, pow-suc 2 k)),
)

and-shifted : (k q r m : ℕ) → r < 2 ^ k → bit_and (q * 2 ^ k + r) (m * 2 ^ k) ≡ bit_and q m * 2 ^ k
and-shifted zero q r m h = ground arith
and-shifted (suc k) q r m h = ground (
  arith,
  bit_and_step (q * 2 ^ suc k + r) (m * 2 ^ suc k),
  double q k,
  double m k,
  double (bit_and q m) k,
  pow-suc 2 k,
  and-shifted k q (r / 2) m (omega (arith, pow-suc 2 k)),
)

or-field : (k q r : ℕ) → r < 2 ^ k → bit_or (q * 2 ^ k) r ≡ q * 2 ^ k + r
or-field zero q r h = ground (arith, or-zero q q)
or-field (suc k) q r h = ground (
  arith,
  bit_or_step (q * 2 ^ suc k) r,
  double q k,
  pow-suc 2 k,
  or-field k q (r / 2) (omega (arith, pow-suc 2 k)),
)

-- `a & 0xFFF`, the offset in a page.
pub and_fff : (a : ℕ) → bit_and a 0xfff ≡ a % 4096
and_fff a = ground (arith, and-ones 12 (a / 4096) (a % 4096))

-- `a & 0x3FF`, an index into a table of 1024 entries.
pub and_3ff : (a : ℕ) → bit_and a 0x3ff ≡ a % 1024
and_3ff a = ground (arith, and-ones 10 (a / 1024) (a % 1024))

-- `a & 0xFFFFF000`, the start of the page.
pub and_fffff000 : (a : ℕ) → a < 2 ^ 32 → bit_and a 0xfffff000 ≡ a - a % 4096
and_fffff000 a h =
    ground (arith, and-shifted 12 (a / 4096) (a % 4096) 0xfffff, and-ones 20 0 (a / 4096))

-- `a & 1`, `a & 2` and `a & 4`: the bits of a page entry that say present, writable and user.
pub and_1 : (a : ℕ) → bit_and a 1 ≡ a % 2
and_1 a = ground (arith, and-ones 1 (a / 2) (a % 2))

pub and_2 : (a : ℕ) → bit_and a 2 ≡ a / 2 % 2 * 2
and_2 a = ground (arith, and-shifted 1 (a / 2) (a % 2) 1, and_1 (a / 2))

pub and_4 : (a : ℕ) → bit_and a 4 ≡ a / 4 % 2 * 4
and_4 a = ground (arith, and-shifted 2 (a / 4) (a % 4) 1, and_1 (a / 4))

-- `frame | flags`, for a page address and flags below the page size.
pub or_flags : (a f : ℕ) → a % 4096 ≡ 0 → f < 4096 → bit_or a f ≡ a + f
or_flags a f h k = ground (arith, or-field 12 (a / 4096) f)

-- `(uint64_t)high << 32 | low`
pub or_words : (high low : ℕ) → low < 2 ^ 32 → bit_or (high * 2 ^ 32) low ≡ high * 2 ^ 32 + low
or_words high low h = or-field 32 high low h

-- `flags & MULTIBOOT_INFO_MEM_MAP`
pub and_64 : (a : ℕ) → bit_and a 64 ≡ a / 64 % 2 * 64
and_64 a = ground (arith, and-shifted 6 (a / 64) (a % 64) 1, and_1 (a / 64))

-- `a | 1`
pub or_1 : (a : ℕ) → bit_or a 1 ≡ a / 2 * 2 + 1
or_1 a = ground (arith, bit_or_step a 1, or-zero (a / 2) (a / 2))

-- `a & 0x7F` and, for a byte, `a & 0x80`: the key and the release bit of a scancode.
pub and_7f : (a : ℕ) → bit_and a 0x7f ≡ a % 128
and_7f a = ground (arith, and-ones 7 (a / 128) (a % 128))

pub and_80 : (a : ℕ) → bit_and a 0x80 ≡ a / 128 % 2 * 128
and_80 a = ground (arith, and-shifted 7 (a / 128) (a % 128) 1, and_1 (a / 128))
