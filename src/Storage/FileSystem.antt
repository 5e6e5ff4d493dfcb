-- ===== src/Storage/FileSystem.antt =====
-- The part of the operating system's file system that the storage uses (tokio::fs, std::path), as a
-- parameter. A path is a text; the files of a storage all stand in its root folder, so a path is
-- the name of a file in it.
use rust_p2p_filesystem.Base.{ℕ, Bool, List, Option}

abbrev pub FilePath : Type 0
FilePath = List ℕ

-- A call that changes the disk also says whether it succeeded. tokio writes in the background, so that
-- `write_all` may succeed before its data can be read.
pub record FileSystem : Type 1 where
  pub Disk : Type 0
  pub exists : FilePath → Disk → Bool
  pub create : FilePath → Disk → Disk × Bool
  pub write_all : FilePath → List ℕ → Disk → Disk × Bool
  pub read : FilePath → Disk → Option (List ℕ)
  pub remove_file : FilePath → Disk → Disk × Bool
