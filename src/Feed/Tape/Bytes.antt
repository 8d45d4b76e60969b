-- ===== src/Feed/Tape/Bytes.antt =====
-- Little-endian numbers as lists of bytes (`to_le_bytes` and `from_le_bytes`), and the fields of a
-- record by their offset (crates/arbkit-feed/src/tape/format.rs).
use native.Mathlib.Nat.{pow-suc}
use arbkit.Prelude.{
  ℕ, zero, suc, ◌+◌, ◌-◌, ◌*◌, ◌/◌, ◌%◌, ◌^◌, ◌<◌, ◌≡◌, refl, ap, List, [], ◌∷◌, length, take, drop,
  get_or, arith, ltb, if◌then◌else◌,
}
use arbkit.Prelude.Int.{ℤ, pos, negsuc, IsI64}

abbrev pub le_bytes : ℕ → ℕ → List ℕ
le_bytes zero v = []
le_bytes (suc n) v = v % 256 ∷ le_bytes n (v / 256)

abbrev pub from_le : List ℕ → ℕ
from_le [] = 0
from_le (b ∷ bs) = b + 256 * from_le bs

-- The number in the `n` bytes at an offset.
abbrev pub field : ℕ → ℕ → List ℕ → ℕ
field offset n bytes = from_le (take n (drop offset bytes))

abbrev pub byte_at : ℕ → List ℕ → ℕ
byte_at i bytes = get_or bytes i 0

-- An i64 as the u64 of the same bits, and back.
abbrev pub to_bits : ℤ → ℕ
to_bits (pos n) = n % 2 ^ 64
to_bits (negsuc n) = 2 ^ 64 - 1 - n % 2 ^ 64

abbrev pub from_bits : ℕ → ℤ
from_bits u = if ltb u (2 ^ 63) then pos u else negsuc (2 ^ 64 - 1 - u)

pub from_le-le_bytes : (n v : ℕ) → v < 256 ^ n → from_le (le_bytes n v) ≡ v
from_le-le_bytes zero v h = omega arith
from_le-le_bytes (suc n) v h =
    let e : 256 ^ suc n ≡ 256 ^ n * 256 = pow-suc 256 n in
    let r : from_le (le_bytes n (v / 256)) ≡ v / 256 =
      from_le-le_bytes n (v / 256) (omega (arith, e)) in
    omega (arith, r)

pub from_bits-to_bits : (a : ℤ) → IsI64 a → from_bits (to_bits a) ≡ a
from_bits-to_bits (pos n) h = ground arith
from_bits-to_bits (negsuc n) h = ground arith

pub to_bits-lt : (a : ℤ) → to_bits a < 2 ^ 64
to_bits-lt (pos n) = omega arith
to_bits-lt (negsuc n) = omega arith

pub length-le_bytes : (n v : ℕ) → length (le_bytes n v) ≡ n
length-le_bytes zero v = refl
length-le_bytes (suc n) v = ap suc (length-le_bytes n (v / 256))
