-- ===== src/Mount/Lost.antt =====
-- crates/neuralfs-daemon/src/mountfs.rs: what becomes of the number of a file that is renamed.
use neural_file_system.Mount.Backing.{Backing}
use neural_file_system.Mount.Reached.{Reached}
