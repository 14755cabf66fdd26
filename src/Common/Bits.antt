-- ===== src/Common/Bits.antt =====
-- `&`, `|` and `~` on words of a given width, by their binary digits.
use libppuc.Common.Tests.{◌==◌}
use Prim.Native.Nat.{ℕ, zero, suc, ◌+◌, ◌*◌, ◌/◌, ◌%◌, ◌<◌, max}
use mathlib.Core.Path.{◌≡◌}
use mathlib.Core.Bool.{Bool, not, ◌&&◌, ◌||◌}
use native.Mathlib.Omega.{arith}

-- The digits `a` of a word of `w` bits combined by `f`.
pub zip_bits : (ℕ → ℕ → ℕ) → ℕ → ℕ → ℕ → ℕ
zip_bits f zero a b = 0
zip_bits f (suc w) a b = f (a % 2) (b % 2) % 2 + 2 * zip_bits f w (a / 2) (b / 2)

abbrev pub and_digit : ℕ → ℕ → ℕ
and_digit x y = x * y

abbrev pub or_digit : ℕ → ℕ → ℕ
or_digit x y = max x y

abbrev pub not_digit : ℕ → ℕ → ℕ
not_digit x y = 1 + x

-- The three operators on a uint8_t.
unfoldable pub and_u8 : ℕ → ℕ → ℕ
and_u8 = zip_bits and_digit 8

unfoldable pub or_u8 : ℕ → ℕ → ℕ
or_u8 = zip_bits or_digit 8

unfoldable pub not_u8 : ℕ → ℕ
not_u8 a = zip_bits not_digit 8 a 0

-- Bit `k` of a number.
unfoldable pub test_bit : ℕ → ℕ → Bool
test_bit a zero = a % 2 == 1
test_bit a (suc k) = test_bit (a / 2) k

test_bit-zip_bits :
    (f : ℕ → ℕ → ℕ) (w k a b : ℕ)
    → k < w
    → (r : Bool → Bool → Bool)
    → ((x y : ℕ) → x < 2 → y < 2 → (f x y % 2 == 1) ≡ r (x == 1) (y == 1))
    → test_bit (zip_bits f w a b) k ≡ r (test_bit a k) (test_bit b k)
unfolding zip_bits test_bit
test_bit-zip_bits f zero k a b h r law = absurd (omega arith)
test_bit-zip_bits f (suc w) zero a b h r law =
    let low : (f (a % 2) (b % 2) % 2 + 2 * zip_bits f w (a / 2) (b / 2)) % 2
        ≡ f (a % 2) (b % 2) % 2 =
      omega arith in
    rw low (law (a % 2) (b % 2) (omega arith) (omega arith))
test_bit-zip_bits f (suc w) (suc k) a b h r law =
    let high : (f (a % 2) (b % 2) % 2 + 2 * zip_bits f w (a / 2) (b / 2)) / 2
        ≡ zip_bits f w (a / 2) (b / 2) =
      omega arith in
    rw high (test_bit-zip_bits f w k (a / 2) (b / 2) (omega arith) r law)

and_law : (x y : ℕ) → x < 2 → y < 2 → (x * y % 2 == 1) ≡ ((x == 1) && (y == 1))
and_law zero y h k = ground arith
and_law (suc zero) y h k = ground arith
and_law (suc (suc x)) y h k = absurd (omega arith)

pub test_bit-and_u8 : (k a b : ℕ) → k < 8 → test_bit (and_u8 a b) k ≡ (test_bit a k && test_bit b k)
unfolding and_u8
test_bit-and_u8 k a b h = test_bit-zip_bits and_digit 8 k a b h (λ x y. x && y) and_law

pub test_bit-or_u8 : (k a b : ℕ) → k < 8 → test_bit (or_u8 a b) k ≡ (test_bit a k || test_bit b k)
unfolding or_u8
test_bit-or_u8 k a b h =
    test_bit-zip_bits or_digit 8 k a b h (λ x y. x || y) (λ x y p q. ground arith)

pub test_bit-not_u8 : (k a : ℕ) → k < 8 → test_bit (not_u8 a) k ≡ not (test_bit a k)
unfolding not_u8
test_bit-not_u8 k a h =
    test_bit-zip_bits not_digit 8 k a 0 h (λ x y. not x) (λ x y p q. ground arith)
