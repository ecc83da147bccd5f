-- ===== src/Mount/Tables.antt =====
-- crates/neuralfs-daemon/src/mountfs.rs: the two tables are inverse to each other.
use neural_file_system.Prelude.{
  ℕ, ◌<◌, ◌≡◌, some, Option-cases, inl, inr, Bytes, lookup, lookup-snoc, lookup-erase,
  bytes_discrete, ℕ_discrete, arith,
}
use neural_file_system.HashLink.{Linked}
use neural_file_system.Mount.{PassthroughFs, new, ino_for, path_of, forget_path}

module _ {L : Linked ℕ_discrete Bytes} {File : Type 0} where
  -- A path has a number just if the number has the path, and numbers are below the next one.
  pub record IsInverse (m : PassthroughFs L File) : Type 0 where
    pub there :
        (p : Bytes) (i : ℕ)
        → lookup bytes_discrete p m.path_to_ino ≡ some i
        → lookup ℕ_discrete i m.ino_to_path ≡ some p
    pub back :
        (p : Bytes) (i : ℕ)
        → lookup ℕ_discrete i m.ino_to_path ≡ some p
        → lookup bytes_discrete p m.path_to_ino ≡ some i
    pub below : (p : Bytes) (i : ℕ) → lookup ℕ_discrete i m.ino_to_path ≡ some p → i < m.next_ino

  -- The number of a path leads back to it, and the tables stay inverse.
  pub ino_for-IsInverse :
      (path : Bytes) (m : PassthroughFs L File)
      → IsInverse m
      → IsInverse (ino_for path m).1 × (path_of (ino_for path m).0 (ino_for path m).1 ≡ some path)
  unfolding ino_for path_of
  ino_for-IsInverse path m w = elim (Option-cases (lookup bytes_discrete path m.path_to_ino)) [
    | inr (i, h) ↦ rw (h, ino_for) (w, w.there path i h)
    | inl h ↦
        let next = m.next_ino in
        let to = λ (j : ℕ). lookup-snoc ℕ_discrete j next path m.ino_to_path in
        let from = λ (p : Bytes). lookup-snoc bytes_discrete p path next m.path_to_ino in
        rw (h, ino_for)
          (
            record {
              there = λ p i g. ground (arith, to i, from p, w.there p i, w.below p i);
              back = λ p i g. ground (arith, to i, from p, w.back p i, w.below p i);
              below = λ p i g. ground (arith, to i, w.below p i);
            },
            ground (arith, to next),
          )
  ]

  pub forget_path-IsInverse :
      (path : Bytes) (m : PassthroughFs L File) → IsInverse m → IsInverse (forget_path path m)
  unfolding forget_path
  forget_path-IsInverse path m w = elim (Option-cases (lookup bytes_discrete path m.path_to_ino)) [
    | inl h ↦ rw (h, forget_path) w
    | inr (ino, h) ↦
        let to = λ (j : ℕ). lookup-erase ℕ_discrete j ino m.ino_to_path in
        let from = λ (p : Bytes). lookup-erase bytes_discrete p path m.path_to_ino in
        rw (h, forget_path)
          (record {
            there = λ p i g. ground (arith, to i, from p, w.there p i, w.there path ino h);
            back = λ p i g. ground (arith, to i, from p, w.back p i, w.there path ino h);
            below = λ p i g. ground (arith, to i, w.below p i);
          })
  ]

  pub new-IsInverse :
      (backing : Bytes) (cache_bytes : ℕ)
      → IsInverse (new {L = L} {File = File} backing cache_bytes)
  unfolding new lookup
  new-IsInverse backing cache_bytes = record {
    there = λ p i g. ground arith;
    back = λ p i g. ground arith;
    below = λ p i g. ground arith;
  }
