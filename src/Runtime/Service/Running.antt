-- ===== src/Runtime/Service/Running.antt =====
-- EnsureTaskRunning of pkg/service/service.go: what runs after it.
use faasd.Prelude.{String, ◌≡◌, ◌≢◌, refl, sym, ap, ◌∙◌, subst, Option, some}
use faasd.Effects.{Result, ok, err}
use faasd.Effects.Calls.{◌>>◌, attempt}
use faasd.Effects.Frame.{KeepsAt, keeps-attempt, after-bind, after-then}
use faasd.Runtime.{
  Task, TaskStatus, running, created, stopped, paused, pausing, unknown, sigkill, Host,
}
use faasd.Runtime.Network.{get_ip_address, create_cni_network}
use faasd.Runtime.Service.{
  run_task, create_task, on_address, recreate, settle_task, on_status, on_task_of,
  ensure_task_running,
}
use faasd.Runtime.Service.Sparing.{IsRuntime, address-quiet, network-quiet}

module _ {W : Type 0} (host : Host W) (status_of : W → String → Option TaskStatus)
    (laws : IsRuntime host status_of) where
  -- What a task has to be doing for the switch to leave it running.
  abbrev pub Startable : W → String → Type 0
  Startable w name = (status_of w name ≢ some created) × (status_of w name ≢ some pausing)

  abbrev Runs : String → W → Type 0
  Runs name w = status_of w name ≡ some running

  started-Runs :
      (name : String) (t : Task) (w : W)
      → t.id ≡ name
      → ((host.client.wait t >> host.client.start t) w).0 ≡ ok tt
      → Runs name ((host.client.wait t >> host.client.start t) w).1
  started-Runs name t w e =
      after-then (Runs name) tt (host.client.wait t) (host.client.start t) w (λ done.
        subst
          (λ (n : String).
            status_of (host.client.start t (host.client.wait t w).1).1 n ≡ some running)
          e (laws.start_runs t (host.client.wait t w).1 done))

  run-Runs :
      (name : String) (t : Task) (w : W)
      → t.id ≡ name
      → (run_task host name t w).0 ≡ ok tt
      → Runs name (run_task host name t w).1
  unfolding run_task
  run-Runs name t w e =
      let network = create_cni_network host t >> get_ip_address host name t.pid in
      after-bind (Runs name) tt network (λ ip. host.client.wait t >> host.client.start t) w
        (λ ip first. started-Runs name t (network w).1 e)

  create-Runs :
      (name : String) (w : W)
      → (create_task host name w).0 ≡ ok tt
      → Runs name (create_task host name w).1
  unfolding create_task
  create-Runs name w =
      after-bind (Runs name) tt (host.client.new_task name) (run_task host name) w
        (λ t made. run-Runs name t (host.client.new_task name w).1 (laws.new_task_id name w t made))

  recreate-Runs :
      (name : String) (t : Task) (w : W)
      → (recreate host name t w).0 ≡ ok tt
      → Runs name (recreate host name t w).1
  unfolding recreate
  recreate-Runs name t w =
      create-Runs name (host.client.delete_task t (host.client.kill t sigkill w).1).1

  settle-Runs :
      (name : String) (t : Task) (s : TaskStatus) (w : W)
      → t.id ≡ name
      → Startable w name
      → status_of w name ≡ some s
      → (settle_task host name t s w).0 ≡ ok tt
      → Runs name (settle_task host name t s w).1
  unfolding settle_task
  settle-Runs name t running w e startable told done =
      keeps-attempt status_of name (get_ip_address host name t.pid) (on_address host t)
        (address-quiet host status_of laws name t.pid name) on w
      ∙ told
    where
      on : (r : Result String) → KeepsAt status_of name (on_address host t r)
      on (ok ip) v = refl
      on (err x) v = network-quiet host status_of laws t name v
  settle-Runs name t stopped w e startable told done = recreate-Runs name t w done
  settle-Runs name t unknown w e startable told done = recreate-Runs name t w done
  settle-Runs name t paused w e startable told done =
      subst (λ (n : String). status_of (host.client.resume t w).1 n ≡ some running) e
        (laws.resume_runs t w done)
  settle-Runs name t created w e startable told done = absurd (startable.0 told)
  settle-Runs name t pausing w e startable told done = absurd (startable.1 told)

  pub Startable-kept :
      (name : String) (v w : W)
      → status_of v name ≡ status_of w name
      → Startable w name
      → Startable v name
  Startable-kept name v w same (not_created, not_pausing) =
      ((λ e. not_created (sym same ∙ e)), (λ e. not_pausing (sym same ∙ e)))

  status-Runs :
      (name : String) (t : Task) (w : W)
      → t.id ≡ name
      → Startable w name
      → (attempt (host.client.status t) (on_status host name t) w).0 ≡ ok tt
      → Runs name (attempt (host.client.status t) (on_status host name t) w).1
  status-Runs name t w e startable = go (host.client.status t w).0 refl
    where
      w' : W
      w' = (host.client.status t w).1

      same : status_of w' name ≡ status_of w name
      same = laws.status_quiet t name w

      go :
          (r : Result TaskStatus)
          → (host.client.status t w).0 ≡ r
          → (on_status host name t r w').0 ≡ ok tt
          → Runs name (on_status host name t r w').1
      go (err x) told = create-Runs name w'
      go (ok s) told =
          settle-Runs name t s w' e (Startable-kept name w' w same startable)
            (same ∙ ap (status_of w) (sym e) ∙ laws.status_told t w s told)

  task-Runs :
      (name : String) (w : W)
      → Startable w name
      → (attempt (host.client.task name) (on_task_of host name) w).0 ≡ ok tt
      → Runs name (attempt (host.client.task name) (on_task_of host name) w).1
  unfolding on_task_of
  task-Runs name w startable = go (host.client.task name w).0 refl
    where
      w' : W
      w' = (host.client.task name w).1

      go :
          (r : Result Task)
          → (host.client.task name w).0 ≡ r
          → (on_task_of host name r w').0 ≡ ok tt
          → Runs name (on_task_of host name r w').1
      go (err x) found = create-Runs name w'
      go (ok t) found =
          status-Runs name t w' (laws.task_id name w t found)
            (Startable-kept name w' w (laws.task_quiet name name w) startable)

  -- On a runtime that behaves as documented, a task that is neither being created nor being paused
  -- runs after EnsureTaskRunning returns no error, whatever it was doing before, and also if the
  -- container had no task.
  pub ensure_task_running-Runs :
      (name : String) (w : W)
      → Startable w name
      → (ensure_task_running host name w).0 ≡ ok tt
      → Runs name (ensure_task_running host name w).1
  unfolding ensure_task_running
  ensure_task_running-Runs name w startable =
      after-then (Runs name) tt (host.client.load_container name)
        (attempt (host.client.task name) (on_task_of host name)) w
        (task-Runs name (host.client.load_container name w).1 (
          Startable-kept name (host.client.load_container name w).1 w (laws.load_quiet name name w)
            startable))
