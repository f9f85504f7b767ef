-- ===== src/Runtime/Service/Sparing.antt =====
-- What the supervision of one task (EnsureTaskRunning of pkg/service/service.go) leaves alone.
use faasd.Prelude.{ℕ, String, ◌==◌, ◌≡◌, refl, ap, ◌∙◌, false, Option, some}
use faasd.Effects.{Result, ok, err}
use faasd.Effects.Calls.{◌>>◌, attempt, regardless}
use faasd.Effects.Frame.{
  KeepsAt, keeps-bind, keeps-bind_of, keeps-attempt_of, keeps-then, keeps-attempt, keeps-regardless,
}
use faasd.Runtime.{
  Task, TaskStatus, running, created, stopped, paused, pausing, unknown, Signal, sigkill, Host,
}
use faasd.Runtime.Network.{get_ip_address, create_cni_network, net_id, net_namespace}
use faasd.Runtime.Network.Quiet.{get_ip_address-quiet}
use faasd.Runtime.Service.{
  run_task, create_task, on_address, recreate, settle_task, on_status, on_task_of,
  ensure_task_running,
}

-- What containerd documents of the status of tasks: which calls change it, and that a task that
-- was started or resumed runs.
pub record IsRuntime {W : Type 0} (host : Host W) (status_of : W → String → Option TaskStatus)
    : Type 0 where
  pub containers_quiet : (j : String) → KeepsAt status_of j host.client.containers
  pub load_quiet : (n j : String) → KeepsAt status_of j (host.client.load_container n)
  pub task_quiet : (n j : String) → KeepsAt status_of j (host.client.task n)
  pub status_quiet : (t : Task) (j : String) → KeepsAt status_of j (host.client.status t)
  pub wait_quiet : (t : Task) (j : String) → KeepsAt status_of j (host.client.wait t)
  pub setup_quiet : (id netns j : String) → KeepsAt status_of j (host.cni.setup id netns)
  pub read_quiet : (dir j : String) → KeepsAt status_of j (host.files.read_dir dir)
  pub open_quiet : (file j : String) → KeepsAt status_of j (host.files.open_file file)
  pub new_task_spares :
      (n j : String) → (n == j) ≡ false → KeepsAt status_of j (host.client.new_task n)
  pub start_spares :
      (t : Task) (j : String) → (t.id == j) ≡ false → KeepsAt status_of j (host.client.start t)
  pub resume_spares :
      (t : Task) (j : String) → (t.id == j) ≡ false → KeepsAt status_of j (host.client.resume t)
  pub kill_spares :
      (t : Task) (s : Signal) (j : String)
      → (t.id == j) ≡ false
      → KeepsAt status_of j (host.client.kill t s)
  pub delete_spares :
      (t : Task) (j : String)
      → (t.id == j) ≡ false
      → KeepsAt status_of j (host.client.delete_task t)
  pub task_id : (n : String) (w : W) (t : Task) → (host.client.task n w).0 ≡ ok t → t.id ≡ n
  pub new_task_id : (n : String) (w : W) (t : Task) → (host.client.new_task n w).0 ≡ ok t → t.id ≡ n
  pub status_told :
      (t : Task) (w : W) (s : TaskStatus)
      → (host.client.status t w).0 ≡ ok s
      → status_of w t.id ≡ some s
  pub start_runs :
      (t : Task) (w : W)
      → (host.client.start t w).0 ≡ ok tt
      → status_of (host.client.start t w).1 t.id ≡ some running
  pub resume_runs :
      (t : Task) (w : W)
      → (host.client.resume t w).0 ≡ ok tt
      → status_of (host.client.resume t w).1 t.id ≡ some running

module _ {W : Type 0} (host : Host W) (status_of : W → String → Option TaskStatus)
    (laws : IsRuntime host status_of) where
  pub address-quiet :
      (name : String) (pid : ℕ) (j : String) → KeepsAt status_of j (get_ip_address host name pid)
  address-quiet name pid j =
      get_ip_address-quiet host status_of laws.read_quiet laws.open_quiet name pid j

  pub network-quiet : (t : Task) (j : String) → KeepsAt status_of j (create_cni_network host t)
  unfolding create_cni_network
  network-quiet t j = laws.setup_quiet (net_id t) (net_namespace t) j

  -- Another container than the one of the task.
  module _ (name j : String) (other : (name == j) ≡ false) where
    apart : (t : Task) → t.id ≡ name → (t.id == j) ≡ false
    apart t e = ap (λ (n : String). n == j) e ∙ other

    run-spares : (t : Task) → t.id ≡ name → KeepsAt status_of j (run_task host name t)
    unfolding run_task
    run-spares t e =
        keeps-bind status_of j (create_cni_network host t >> get_ip_address host name t.pid)
          (λ ip. host.client.wait t >> host.client.start t)
          (keeps-then status_of j (create_cni_network host t) (get_ip_address host name t.pid)
            (network-quiet t j) (address-quiet name t.pid j))
          (λ ip.
            keeps-then status_of j (host.client.wait t) (host.client.start t) (laws.wait_quiet t j)
              (laws.start_spares t j (apart t e)))

    create-spares : KeepsAt status_of j (create_task host name)
    unfolding create_task
    create-spares =
        keeps-bind_of status_of j (host.client.new_task name) (run_task host name)
          (laws.new_task_spares name j other)
          (λ w t made. run-spares t (laws.new_task_id name w t made))

    recreate-spares : (t : Task) → t.id ≡ name → KeepsAt status_of j (recreate host name t)
    unfolding recreate
    recreate-spares t e =
        keeps-regardless status_of j (host.client.kill t sigkill)
          (regardless (host.client.delete_task t) (create_task host name))
          (laws.kill_spares t sigkill j (apart t e))
          (keeps-regardless status_of j (host.client.delete_task t) (create_task host name)
            (laws.delete_spares t j (apart t e)) create-spares)

    settle-spares :
        (t : Task)
        → t.id ≡ name
        → (s : TaskStatus) → KeepsAt status_of j (settle_task host name t s)
    unfolding settle_task
    settle-spares t e running w =
        keeps-attempt status_of j (get_ip_address host name t.pid) (on_address host t)
          (address-quiet name t.pid j) on w
      where
        on : (r : Result String) → KeepsAt status_of j (on_address host t r)
        on (ok ip) v = refl
        on (err x) v = network-quiet t j v
    settle-spares t e stopped w = recreate-spares t e w
    settle-spares t e unknown w = recreate-spares t e w
    settle-spares t e paused w = laws.resume_spares t j (apart t e) w
    settle-spares t e created w = refl
    settle-spares t e pausing w = refl

    pub ensure-spares : KeepsAt status_of j (ensure_task_running host name)
    unfolding ensure_task_running on_task_of
    ensure-spares =
        keeps-then status_of j (host.client.load_container name)
          (attempt (host.client.task name) (on_task_of host name)) (laws.load_quiet name j)
          (keeps-attempt_of status_of j (host.client.task name) (on_task_of host name)
            (laws.task_quiet name j) (λ w. found w (host.client.task name w).0 refl))
      where
        told :
            (t : Task)
            → t.id ≡ name
            → (r : Result TaskStatus) → KeepsAt status_of j (on_status host name t r)
        told t e (ok s) = settle-spares t e s
        told t e (err x) = create-spares

        found :
            (w : W) (r : Result Task)
            → (host.client.task name w).0 ≡ r
            → KeepsAt status_of j (on_task_of host name r)
        found w (err x) e = create-spares
        found w (ok t) e =
            keeps-attempt status_of j (host.client.status t) (on_status host name t)
              (laws.status_quiet t j) (told t (laws.task_id name w t e))
