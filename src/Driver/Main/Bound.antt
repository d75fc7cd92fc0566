-- ===== src/Driver/Main/Bound.antt =====
-- What SetEnv leaves.
use hlfs.Common.{ℕ, ◌≤◌, ◌≡◌, true, List, bind}
use hlfs.Files.Calls.{FileSystem}
use hlfs.Driver.RepDir.{HasRepDirs}
use hlfs.Driver.Main.{Numa}

-- What the manual page says of bit masks, and that memory can be bound to any node up to `max_node`.
pub record IsNuma (numa : Numa) (max_node : ℕ) : Type 0 where
  pub one_bit :
      (m : numa.Mask) (i : ℕ) → i ≤ max_node → numa.weight (numa.setbit (numa.clearall m) i) ≡ 1
  pub set : (m : numa.Mask) (i : ℕ) → i ≤ max_node → numa.isbitset (numa.setbit m i) i ≡ true
  pub bound :
      (m : numa.Mask) (i strict : ℕ) (os : numa.Os)
      → i ≤ max_node
      → numa.membind (numa.set_bind_policy strict (numa.bind (numa.setbit (numa.clearall m) i) os))
        ≡ numa.setbit (numa.clearall m) i

module _ (numa : Numa) (fs : FileSystem) where
  -- Memory comes from the node `socket` alone, and the directories of the reports are there.
  pub record IsBound (socket : ℕ) (rep_dir_path : List ℕ) (r : numa.Os × fs.Os) : Type 0 where
    pub one_node : numa.weight (numa.membind r.0) ≡ 1
    pub node : numa.isbitset (numa.membind r.0) socket ≡ true
    pub dirs : HasRepDirs fs rep_dir_path r.1
