-- ===== src/Runtime/Service.antt =====
-- The tasks of containers: pkg/service/service.go.
pub mod Images
pub mod Unpacking
pub mod Sparing
pub mod Running
pub mod All
pub mod Removal
use faasd.Prelude.{
  ℕ, String, ◌<>◌, ◌==◌, Bool, true, false, Option, none, some, List, [], ◌∷◌, ◌++◌, if◌then◌else◌,
}
use faasd.Effects.{Result, ok, err, Error, not_found, failed}
use faasd.Effects.Calls.{Call, succeed, fail, ◌>>=◌, ◌>>◌, attempt, regardless}
use faasd.Runtime.{
  Task, TaskStatus, running, created, stopped, paused, pausing, unknown, Signal, sigterm, sigkill,
  Containerd, Host,
}
use faasd.Runtime.Network.{get_ip_address, create_cni_network, delete_cni_network}

module _ {W : Type 0} (host : Host W) where
  abbrev pub client : Containerd W
  client = host.client

  unfoldable pub get_task_ip : String → Call W String
  get_task_ip name =
      client.load_container name >> client.task name >>= (λ task. get_ip_address host name task.pid)

  -- The error of the wait and of the start ends the creation of a task.
  unfoldable pub run_task : String → Task → Call W (Unit {0})
  run_task name task =
      create_cni_network host task
      >> get_ip_address host name task.pid
      >>= (λ ip. client.wait task >> client.start task)

  unfoldable pub create_task : String → Call W (Unit {0})
  unfolding run_task
  create_task name = client.new_task name >>= run_task name

  -- A running task gets a network if it has no address.
  abbrev pub on_address : Task → Result String → Call W (Unit {0})
  on_address task (ok ip) = succeed tt
  on_address task (err e) = create_cni_network host task

  unfoldable pub recreate : String → Task → Call W (Unit {0})
  recreate name task =
      regardless (client.kill task sigkill)
        (regardless (client.delete_task task) (create_task name))

  -- The switch over the status.
  unfoldable pub settle_task : String → Task → TaskStatus → Call W (Unit {0})
  unfolding recreate
  settle_task name task running = attempt (get_ip_address host name task.pid) (on_address task)
  settle_task name task stopped = recreate name task
  settle_task name task unknown = recreate name task
  settle_task name task paused = client.resume task
  settle_task name task created = succeed tt
  settle_task name task pausing = succeed tt

  -- Without a status a task is created, and the switch is over the empty status.
  abbrev pub on_status : String → Task → Result TaskStatus → Call W (Unit {0})
  on_status name task (err e) = create_task name
  on_status name task (ok status) = settle_task name task status

  unfoldable pub on_task_of : String → Result Task → Call W (Unit {0})
  unfolding settle_task
  on_task_of name (err e) = create_task name
  on_task_of name (ok task) = attempt (client.status task) (on_status name task)

  unfoldable pub ensure_task_running : String → Call W (Unit {0})
  unfolding on_task_of
  ensure_task_running name =
      client.load_container name >> attempt (client.task name) (on_task_of name)

  unfoldable pub ensure_tasks : List String → Call W (Unit {0})
  ensure_tasks [] = succeed tt
  ensure_tasks (name ∷ names) = ensure_task_running name >> ensure_tasks names

  unfoldable pub ensure_all_task_running : Call W (Unit {0})
  unfolding ensure_tasks
  ensure_all_task_running = client.containers >>= ensure_tasks

  -- What the loops over all containers do with one that has no task, or whose status is not told.
  abbrev pub on_running : String → Task → Result TaskStatus → Call W Bool
  on_running name task (err e) = create_task name >> succeed false
  on_running name task (ok running) = succeed true
  on_running name task (ok _) = succeed false

  abbrev pub on_task_running : String → Result Task → Call W Bool
  on_task_running name (err e) = create_task name >> succeed false
  on_task_running name (ok task) = attempt (client.status task) (on_running name task)

  abbrev pub add_task : String → Bool → List String → List String
  add_task name runs tasks = if runs then tasks ++ name ∷ [] else tasks

  unfoldable pub running_tasks : List String → List String → Call W (List String)
  running_tasks [] tasks = succeed tasks
  running_tasks (name ∷ names) tasks =
      client.load_container name
      >> attempt (client.task name) (on_task_running name)
      >>= (λ runs. running_tasks names (add_task name runs tasks))

  unfoldable pub get_task_running : Call W (List String)
  unfolding running_tasks
  get_task_running = client.containers >>= (λ names. running_tasks names [])

  -- The goroutine that killTask waits for. Its errors stay inside.
  abbrev pub end_task : Task → Bool → Call W (Unit {0})
  end_task task true = regardless (client.delete_task task) (succeed tt)
  end_task task false = regardless (client.kill task sigkill) (succeed tt)

  abbrev pub on_wait : Task → Result (Unit {0}) → Call W (Unit {0})
  on_wait task (err e) = succeed tt
  on_wait task (ok a) =
      regardless (client.kill task sigterm)
        (λ w. end_task task (client.exits_in_time task w).0 (client.exits_in_time task w).1)

  unfoldable pub kill_task : Task → Call W (Unit {0})
  kill_task task = attempt (client.wait task) (on_wait task)

  unfoldable pub kill_found : Task → Call W (Unit {0})
  unfolding kill_task
  kill_found task = regardless (client.status task) (kill_task task)

  abbrev pub on_task_to_kill : Result Task → Call W (Unit {0})
  on_task_to_kill (ok task) = kill_found task
  on_task_to_kill (err not_found) = succeed tt
  on_task_to_kill (err failed) = fail failed

  -- Where the container cannot be loaded, its snapshot is removed if there is one.
  abbrev pub on_snapshot : String → Result (Unit {0}) → Call W (Unit {0})
  on_snapshot key (ok a) = regardless (client.remove_snapshot key) (succeed tt)
  on_snapshot key (err e) = succeed tt

  unfoldable pub on_container : String → Result (Unit {0}) → Call W (Unit {0})
  unfolding kill_found
  on_container name (ok a) =
      attempt (client.task name) on_task_to_kill >> client.delete_container name
  on_container name (err e) =
      attempt (client.has_snapshot (name <> "-snapshot")) (on_snapshot (name <> "-snapshot"))

  unfoldable pub remove : String → Call W (Unit {0})
  unfolding on_container
  remove name = attempt (client.load_container name) (on_container name)

  -- A stopped task goes with its network and its container; the errors are logged.
  abbrev pub on_stopped : String → Result TaskStatus → Call W (Unit {0})
  on_stopped name (err e) = regardless (create_task name) (succeed tt)
  on_stopped name (ok stopped) =
      regardless (delete_cni_network host name) (regardless (remove name) (succeed tt))
  on_stopped name (ok _) = succeed tt

  abbrev pub on_task_stopped : String → Result Task → Call W (Unit {0})
  on_task_stopped name (err e) = create_task name
  on_task_stopped name (ok task) = attempt (client.status task) (on_stopped name)

  unfoldable pub delete_stopped : List String → Call W (Unit {0})
  unfolding remove
  delete_stopped [] = succeed tt
  delete_stopped (name ∷ names) =
      client.load_container name
      >> attempt (client.task name) (on_task_stopped name)
      >> delete_stopped names

  unfoldable pub ensure_all_stopped_task_delete : Call W (Unit {0})
  unfolding delete_stopped
  ensure_all_stopped_task_delete = client.containers >>= delete_stopped
