-- ===== src/Classifier/Reservoir.antt =====
-- crates/neuralfs-daemon/src/classifier.rs: the weighted sample of the files that a training takes
-- when there are many.
use neural_file_system.Prelude.{
  ℕ, ◌-◌, ◌*◌, ◌/◌, ◌%◌, ◌^◌, List, [], ◌∷◌, map, take, ltb, if◌then◌else◌,
}
use Prim.Native.Nat.{bit_xor, bit_or}
use neural_file_system.FileEntry.{FileEntry}
use neural_file_system.Host.{F64, Floats}
use neural_file_system.Classifier.{sort_by}

-- A 64-bit generator: the bits that leave the word are lost.
unfoldable pub xorshift64 : ℕ → ℕ
xorshift64 x₀ =
    let x₁ = bit_xor x₀ (x₀ * 2 ^ 13 % 2 ^ 64) in
    let x₂ = bit_xor x₁ (x₁ / 2 ^ 7) in bit_xor x₂ (x₂ * 2 ^ 17 % 2 ^ 64)

-- The draw of a state that the generator has just left.
unit_of : Floats → ℕ → F64
unit_of F state = F.inside_unit (F.div (F.of_nat state) (F.of_nat (2 ^ 64 - 1)))

recency : Floats → FileEntry → ℕ → F64
recency F e now =
    if ltb 0 e.last_open
    then F.exp
        (F.mul (F.neg (F.ratio 4 1000)) (F.div (F.of_nat (now - e.last_open)) (F.of_nat 3600)))
    else F.ratio 1 10

unfoldable pub sample_weight : Floats → FileEntry → ℕ → F64
unfolding recency
sample_weight F e now =
    F.mul (F.add (F.of_nat e.freq) (F.of_nat 1))
      (F.larger (recency F e now) (F.ratio 1 (1000 * 1000 * 1000)))

-- Each entry with its key, from a state of the generator on.
keyed : Floats → ℕ → ℕ → List FileEntry → List (F64 × FileEntry)
keyed F now state [] = []
keyed F now state (e ∷ es) =
    let next = xorshift64 state in
    (F.pow (unit_of F next) (F.div (F.of_nat 1) (sample_weight F e now)), e) ∷ keyed F now next es

unfoldable pub weighted_reservoir : Floats → List FileEntry → ℕ → ℕ → ℕ → List FileEntry
unfolding unit_of keyed
weighted_reservoir F items now k seed =
    take k (map (λ e. e.1) (sort_by F (λ e. e.0) (keyed F now (bit_or seed 1) items)))
