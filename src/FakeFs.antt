-- ===== src/FakeFs.antt =====
-- The simulated file system: paths and shell commands (src/infra/fake_fs/), its table of nodes
-- (src/infra/fake_fs_datastore.py) and the command handler over it
-- (src/infra/fake_fs_data_handler.py).
pub mod Paths
pub mod Nodes
pub mod Commands
pub mod Navigation
pub mod Shlex
pub mod Reader
pub mod Artifacts
pub mod Search
pub mod Query
pub mod System
pub mod Arguments
