-- ===== src/Runtime.antt =====
-- The containers of a node: what pkg/service and pkg/cninetwork call of containerd, of the network
-- library and of the disk, as parameters over a world. A client stands for one together with the
-- namespace of its context, and a container for its ID.
pub mod Network
pub mod Service
use faasd.Prelude.{ℕ, String, Bool, List, Map}
use faasd.Effects.Calls.{Call}

-- containerd.Task
pub record Task : Type 0 where
  pub id : String
  pub pid : ℕ

-- containerd.ProcessStatus
pub data TaskStatus : Type 0 where
  running created stopped paused pausing unknown : TaskStatus

pub data Signal : Type 0 where
  sigterm sigkill : Signal

-- `exits_in_time` says which comes first, the end of the task or the time-out of 30 seconds.
pub record Containerd (W : Type 0) : Type 0 where
  pub containers : Call W (List String)
  pub load_container : String → Call W (Unit {0})
  pub task : String → Call W Task
  pub new_task : String → Call W Task
  pub wait : Task → Call W (Unit {0})
  pub start : Task → Call W (Unit {0})
  pub status : Task → Call W TaskStatus
  pub kill : Task → Signal → Call W (Unit {0})
  pub exits_in_time : Task → W → Bool × W
  pub resume : Task → Call W (Unit {0})
  pub delete_task : Task → Call W (Unit {0})
  pub delete_container : String → Call W (Unit {0})
  pub has_snapshot : String → Call W (Unit {0})
  pub remove_snapshot : String → Call W (Unit {0})

-- gocni.CNI: the identity of the network and the path of its namespace.
pub record Cni (W : Type 0) : Type 0 where
  pub setup : String → String → Call W (Unit {0})
  pub remove : String → String → Call W (Unit {0})

-- ioutil.ReadDir, and what a file holds that os.Open opens.
pub record Files (W : Type 0) : Type 0 where
  pub read_dir : String → Call W (List String)
  pub open_file : String → Call W String

pub record Host (W : Type 0) : Type 0 where
  pub client : Containerd W
  pub cni : Cni W
  pub files : Files W
