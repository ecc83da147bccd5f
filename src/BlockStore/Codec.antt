-- ===== src/BlockStore/Codec.antt =====
-- The byte encodings of crates/neuralfs-fs/src/blockstore.rs: `to_le_bytes` and `from_le_bytes`,
-- the packed index values of `enc` and `dec`, and `hash_hex`.
use neural_file_system.Prelude.{
  ℕ, zero, suc, ◌+◌, ◌-◌, ◌*◌, ◌/◌, ◌%◌, ◌^◌, ◌<◌, ◌≡◌, [], ◌∷◌, ◌++◌, Bytes, length, take, drop,
  take-append, drop-append, take_all, ltb, if◌then◌else◌, arith, refl, ap, sym, ◌∙◌,
}
use mathlib.Core.List.{reverse, reverse_aux, reverse-reverse}
use native.Mathlib.Nat.{pow-suc}

-- The `n` low bytes of a number, the lowest first.
unfoldable pub to_le_bytes : ℕ → ℕ → Bytes
to_le_bytes zero x = []
to_le_bytes (suc n) x = (x % 256) ∷ to_le_bytes n (x / 256)

unfoldable pub from_le_bytes : Bytes → ℕ
from_le_bytes [] = 0
from_le_bytes (b ∷ bs) = b + 256 * from_le_bytes bs

unfoldable pub enc : ℕ → ℕ → Bytes
enc offset len = to_le_bytes 8 offset ++ to_le_bytes 4 len

-- The offset and the length. The source panics on a value of less than 12 bytes; every value of
-- the index is one that `enc` wrote.
unfoldable pub dec : Bytes → ℕ × ℕ
dec v = (from_le_bytes (take 8 v), from_le_bytes (take 4 (drop 8 v)))

-- The same, the highest byte first.
unfoldable pub to_be_bytes : ℕ → ℕ → Bytes
to_be_bytes n x = reverse (to_le_bytes n x)

hex_digit : ℕ → ℕ
hex_digit d = if ltb d 10 then b'0' + d else b'a' + (d - 10)

-- Two lower-case hexadecimal digits for each byte.
unfoldable pub hash_hex : Bytes → Bytes
unfolding hex_digit
hash_hex [] = []
hash_hex (b ∷ h) = hex_digit (b / 16) ∷ hex_digit (b % 16) ∷ hash_hex h

pub length-to_le_bytes : (n x : ℕ) → length (to_le_bytes n x) ≡ n
unfolding to_le_bytes
length-to_le_bytes zero x = refl
length-to_le_bytes (suc n) x = ap suc (length-to_le_bytes n (x / 256))

-- What fits the width is read back.
from_le_bytes-to_le_bytes : (n x : ℕ) → x < 256 ^ n → from_le_bytes (to_le_bytes n x) ≡ x
unfolding from_le_bytes to_le_bytes
from_le_bytes-to_le_bytes zero x h = omega arith
from_le_bytes-to_le_bytes (suc n) x h =
    omega (arith, pow-suc 256 n, from_le_bytes-to_le_bytes n (x / 256))

-- `dec` reads back what `enc` packed, for a 64-bit offset and a 32-bit length.
pub dec-enc :
    (offset len : ℕ) → offset < 2 ^ 64 → len < 2 ^ 32 → dec (enc offset len) ≡ (offset, len)
unfolding dec enc
dec-enc offset len p q =
    let a = to_le_bytes 8 offset in
    let b = to_le_bytes 4 len in
    rw (
      take-append 8 a b (length-to_le_bytes 8 offset),
      drop-append 8 a b (length-to_le_bytes 8 offset),
      take_all b 4 (omega (arith, length-to_le_bytes 4 len)),
      from_le_bytes-to_le_bytes 8 offset p,
      from_le_bytes-to_le_bytes 4 len q,
    )

pub to_be_bytes_injective :
    (n x y : ℕ) → x < 256 ^ n → y < 256 ^ n → to_be_bytes n x ≡ to_be_bytes n y → x ≡ y
unfolding to_be_bytes
to_be_bytes_injective n x y p q h =
    let same : to_le_bytes n x ≡ to_le_bytes n y =
      sym (reverse-reverse (to_le_bytes n x)) ∙ ap reverse h ∙ reverse-reverse (to_le_bytes n y) in
    sym (from_le_bytes-to_le_bytes n x p) ∙ ap from_le_bytes same ∙ from_le_bytes-to_le_bytes n y q

length-reverse_aux : (b c : Bytes) → length (reverse_aux b c) ≡ length b + length c
length-reverse_aux [] c = omega arith
length-reverse_aux (x ∷ b) c = omega (arith, length-reverse_aux b (x ∷ c))

pub length-to_be_bytes : (n x : ℕ) → length (to_be_bytes n x) ≡ n
unfolding to_be_bytes
length-to_be_bytes n x =
    omega (arith, length-reverse_aux (to_le_bytes n x) [], length-to_le_bytes n x)
