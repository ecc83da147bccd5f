-- ===== src/Host.antt =====
-- What crates/neuralfs-daemon takes from the machine and from other crates: the Unicode tables and
-- the paths of the standard library, which differ between platforms, the tree of files that is
-- indexed, floats, base64 and the times. A float is its 64 bits, on which the operations act.
use neural_file_system.Prelude.{
  ℕ, ◌*◌, ◌^◌, ◌%◌, ◌<◌, ◌≡◌, Bool, false, Option, some, List, Bytes, ltb,
}
use neural_file_system.FileEntry.{FileEntry}
use neural_file_system.Platform.{Platform, Bincode}

abbrev pub F64 : Type 0
F64 = ℕ

-- All bits of the exponent, and a fraction that is not zero; the sign does not count.
unfoldable pub is_nan : F64 → Bool
is_nan x = ltb (2047 * 2 ^ 52) (x % 2 ^ 63)

-- `greater` is `partial_cmp` giving `Greater`; it is false where a NaN stands.
pub record Floats : Type 0 where
  pub of_nat : ℕ → F64
  -- The float next to a quotient, for the literals.
  pub ratio : ℕ → ℕ → F64
  pub infinity : F64
  pub sub : F64 → F64 → F64
  pub larger : F64 → F64 → F64
  pub neg : F64 → F64
  pub exp : F64 → F64
  pub ln : F64 → F64
  pub pow : F64 → F64 → F64
  -- `clamp` between the least positive float and the greatest below one.
  pub inside_unit : F64 → F64
  pub add : F64 → F64 → F64
  pub mul : F64 → F64 → F64
  pub div : F64 → F64 → F64
  -- `<=`.
  pub at_most : F64 → F64 → Bool
  pub greater : F64 → F64 → Bool
  -- `to_string`, `parse`, and `format!` with a number of decimals.
  pub print : F64 → Bytes
  pub parse : Bytes → Option F64
  pub fixed : ℕ → F64 → Bytes
  -- The text of a NaN has neither its sign nor its fraction.
  pub parse-print : (x : F64) → x < 2 ^ 64 → is_nan x ≡ false → parse (print x) ≡ some x

-- `std::path`, on paths of text.
pub record Paths : Type 0 where
  pub file_name : Bytes → Option Bytes
  pub extension : Bytes → Option Bytes
  pub parent : Bytes → Option Bytes
  pub components : Bytes → ℕ

-- An entry that `walkdir` yields.
pub record Dent : Type 0 where
  pub path : Bytes
  pub depth : ℕ
  pub is_file : Bool

-- The length and the time of the last change, in seconds.
pub record Meta : Type 0 where
  pub len : ℕ
  pub modified : ℕ

-- The real files, as a call finds them. `none` in a walk is an entry that gave an error.
pub record Disk : Type 0 where
  pub walk : Bytes → List (Option Dent)
  pub metadata : Bytes → Option Meta
  pub is_file : Bytes → Bool
  pub is_dir : Bytes → Bool
  pub canonicalize : Bytes → Option Bytes
  -- Whether `watch` of a directory succeeds, with the message of the error if it does not.
  pub watch : Bytes → Option Bytes

-- `ndarray`: the weights and the bias of the classifier, a product with them, and the change of
-- both by a rate and the two vectors of a gradient.
pub record Linear : Type 1 where
  pub Weights : Type 0
  pub empty : Weights
  pub logits : List F64 → Weights → List F64
  -- Zeros for a number of features and of classes, and one epoch of the training: a step against
  -- the mean gradient, with a rate and a decay of the weights.
  pub zeros : ℕ → ℕ → Weights
  pub epoch : F64 → F64 → List (List F64) → List (List F64) → Weights → Weights
  pub descend : F64 → List F64 → List F64 → Weights → Weights

pub record Host : Type 1 where
  pub volume : Platform
  pub entry_code : Bincode FileEntry
  pub floats : Floats
  pub linear : Linear
  pub paths : Paths
  -- `DefaultHasher` on a text, and `to_lowercase` and `trim` of a text.
  pub hash : Bytes → ℕ
  pub lower : Bytes → Bytes
  pub trim : Bytes → Bytes
  -- `base64::engine::general_purpose::STANDARD`.
  pub b64_encode : Bytes → Bytes
  pub b64_decode : Bytes → Option Bytes
  pub decode-encode : (b : Bytes) → b64_decode (b64_encode b) ≡ some b
