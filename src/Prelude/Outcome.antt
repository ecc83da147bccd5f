-- ===== src/Prelude/Outcome.antt =====
-- `anyhow::Result`: the errors that the program itself raises, and the monad of a method that
-- changes its receiver and may fail. A failing method keeps the changes made before it failed.

-- Constructors for the messages of `bail!` and `with_context`, and for a failed read or decode.
pub data Error : Type 0 where
  block_not_found integrity_check_failed short_read bad_encoding dangling_inode : Error
  cannot_write_root cannot_remove_root cannot_rename_root : Error
  is_a_directory is_a_file not_a_directory no_such_component : Error
  traverses_a_file no_such_entry no_such_snapshot : Error
  bad_number unknown_key : Error
  -- Not of the source: a walk on fuel that was too small.
  out_of_fuel : Error

pub data Result {ℓ} (A : Type ℓ) : Type ℓ where
  ok : A → Result A
  err : Error → Result A
