-- ===== src/Model/Floats.antt =====
-- `double` and `float` as their IEEE 754 bit patterns, which is what the store copies with
-- `memcpy`: the sign in the top bit, then the exponent, then the fraction. Comparison is that of
-- the standard: false on a NaN, -0 equal to +0, and otherwise by sign and magnitude.
use esp32_rid.Prelude.{ℕ, ◌%◌, ◌^◌, Bool, true, false, not, ◌&&◌, ltb, leb, ◌==◌}

abbrev pub Double : Type 0
Double = ℕ

abbrev pub Float : Type 0
Float = ℕ

abbrev pub magnitude64 : Double → ℕ
magnitude64 d = d % 2 ^ 63

abbrev pub negative64 : Double → Bool
negative64 d = leb (2 ^ 63) d

abbrev pub magnitude32 : Float → ℕ
magnitude32 f = f % 2 ^ 31

abbrev pub negative32 : Float → Bool
negative32 f = leb (2 ^ 31) f

-- `std::isfinite`: the exponent is not all ones.
unfoldable pub is_finite64 : Double → Bool
is_finite64 d = ltb (magnitude64 d) 0x7ff0000000000000

unfoldable pub is_finite32 : Float → Bool
is_finite32 f = ltb (magnitude32 f) 0x7f800000

unfoldable pub is_nan64 : Double → Bool
is_nan64 d = ltb 0x7ff0000000000000 (magnitude64 d)

unfoldable pub is_nan32 : Float → Bool
is_nan32 f = ltb 0x7f800000 (magnitude32 f)

-- The order of two signed magnitudes.
unfoldable pub signed_le : Bool → ℕ → Bool → ℕ → Bool
signed_le false m false n = leb m n
signed_le false m true n = (m == 0) && (n == 0)
signed_le true m false n = true
signed_le true m true n = leb n m

unfoldable pub le64 : Double → Double → Bool
unfolding signed_le is_nan64
le64 a b =
    not (is_nan64 a)
    && not (is_nan64 b)
    && signed_le (negative64 a) (magnitude64 a) (negative64 b) (magnitude64 b)

unfoldable pub le32 : Float → Float → Bool
unfolding signed_le is_nan32
le32 a b =
    not (is_nan32 a)
    && not (is_nan32 b)
    && signed_le (negative32 a) (magnitude32 a) (negative32 b) (magnitude32 b)

unfoldable pub lt32 : Float → Float → Bool
unfolding signed_le is_nan32
lt32 a b =
    not (is_nan32 a)
    && not (is_nan32 b)
    && not (signed_le (negative32 b) (magnitude32 b) (negative32 a) (magnitude32 a))

unfoldable pub eq32 : Float → Float → Bool
unfolding le32
eq32 a b = le32 a b && le32 b a
