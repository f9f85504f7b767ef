-- ===== src/Runtime/Service/Removal.antt =====
-- Remove of pkg/service/service.go against the set of the containers.
use faasd.Prelude.{
  String, ◌<>◌, ◌==◌, ◌≡◌, ◌≢◌, refl, sym, ap, ◌∙◌, Bool, true, false, if◌then◌else◌, String-cases,
  inl, inr,
}
use faasd.Effects.{Result, ok, err, Error, not_found, failed}
use faasd.Effects.Calls.{attempt}
use faasd.Effects.Frame.{KeepsAt, keeps-attempt, keeps-regardless, bind-eq-ok}
use faasd.Runtime.{Task, Signal, sigterm, sigkill, Host}
use faasd.Runtime.Service.{
  end_task, on_wait, kill_task, kill_found, on_task_to_kill, on_snapshot, on_container, remove,
}

-- The containers that there are are changed by the deletion of one alone, and a container that is
-- found, or not found, is there, or is not.
pub record IsContainers {W : Type 0} (host : Host W) (exists : W → String → Bool) : Type 0 where
  pub load_quiet : (n j : String) → KeepsAt exists j (host.client.load_container n)
  pub task_quiet : (n j : String) → KeepsAt exists j (host.client.task n)
  pub status_quiet : (t : Task) (j : String) → KeepsAt exists j (host.client.status t)
  pub wait_quiet : (t : Task) (j : String) → KeepsAt exists j (host.client.wait t)
  pub kill_quiet : (t : Task) (s : Signal) (j : String) → KeepsAt exists j (host.client.kill t s)
  pub delete_task_quiet : (t : Task) (j : String) → KeepsAt exists j (host.client.delete_task t)
  pub time_quiet :
      (t : Task) (w : W) (j : String) → exists (host.client.exits_in_time t w).1 j ≡ exists w j
  pub stat_quiet : (key j : String) → KeepsAt exists j (host.client.has_snapshot key)
  pub snapshot_quiet : (key j : String) → KeepsAt exists j (host.client.remove_snapshot key)
  pub load_not_found :
      (n : String) (w : W) → (host.client.load_container n w).0 ≡ err not_found → exists w n ≡ false
  pub deleted :
      (n : String) (w : W) (j : String)
      → (host.client.delete_container n w).0 ≡ ok tt
      → exists (host.client.delete_container n w).1 j ≡ (if n == j then false else exists w j)

module _ {W : Type 0} (host : Host W) (exists : W → String → Bool)
    (laws : IsContainers host exists) where
  end-quiet : (t : Task) (j : String) (b : Bool) → KeepsAt exists j (end_task host t b)
  end-quiet t j true w = laws.delete_task_quiet t j w
  end-quiet t j false w = laws.kill_quiet t sigkill j w

  on_wait-quiet :
      (t : Task) (j : String) (r : Result (Unit {0})) → KeepsAt exists j (on_wait host t r)
  on_wait-quiet t j (err e) w = refl
  on_wait-quiet t j (ok a) w =
      let w' = (host.client.kill t sigterm w).1 in
      end-quiet t j (host.client.exits_in_time t w').0 (host.client.exits_in_time t w').1
      ∙ laws.time_quiet t w' j
      ∙ laws.kill_quiet t sigterm j w

  kill-quiet : (t : Task) (j : String) → KeepsAt exists j (kill_found host t)
  unfolding kill_found kill_task
  kill-quiet t j =
      keeps-regardless exists j (host.client.status t)
        (attempt (host.client.wait t) (on_wait host t)) (laws.status_quiet t j)
        (keeps-attempt exists j (host.client.wait t) (on_wait host t) (laws.wait_quiet t j)
          (on_wait-quiet t j))

  task_to_kill-quiet : (j : String) (r : Result Task) → KeepsAt exists j (on_task_to_kill host r)
  task_to_kill-quiet j (ok t) w = kill-quiet t j w
  task_to_kill-quiet j (err not_found) w = refl
  task_to_kill-quiet j (err failed) w = refl

  snapshot-quiet :
      (key j : String) (r : Result (Unit {0})) → KeepsAt exists j (on_snapshot host key r)
  snapshot-quiet key j (ok a) w = laws.snapshot_quiet key j w
  snapshot-quiet key j (err e) w = refl

  -- Where the container is not loaded.
  unloaded-quiet : (name j : String) (e : Error) → KeepsAt exists j (on_container host name (err e))
  unfolding on_container
  unloaded-quiet name j e =
      let key = name <> "-snapshot" in
      keeps-attempt exists j (host.client.has_snapshot key) (on_snapshot host key)
        (laws.stat_quiet key j) (snapshot-quiet key j)

  snapshot_ok :
      (key : String) (r : Result (Unit {0})) (w : W) → (on_snapshot host key r w).0 ≡ ok tt
  snapshot_ok key (ok a) w = refl
  snapshot_ok key (err e) w = refl

  unloaded_ok : (name : String) (e : Error) (w : W) → (on_container host name (err e) w).0 ≡ ok tt
  unfolding on_container
  unloaded_ok name e w =
      let key = name <> "-snapshot" in
      snapshot_ok key (host.client.has_snapshot key w).0 (host.client.has_snapshot key w).1

  loaded-deletes :
      (name : String) (w : W) (j : String)
      → (on_container host name (ok tt) w).0 ≡ ok tt
      → exists (on_container host name (ok tt) w).1 j ≡ (if name == j then false else exists w j)
  unfolding on_container
  loaded-deletes name w j done =
      let killed = attempt (host.client.task name) (on_task_to_kill host) in
      let (a, first, same) =
        bind-eq-ok killed (λ ignored. host.client.delete_container name) w tt done in
      let w' = (killed w).1 in
      let deleted = ap (λ (r : Result (Unit {0}) × W). r.0) (sym same) ∙ done in
      ap (λ (r : Result (Unit {0}) × W). exists r.1 j) same
      ∙ laws.deleted name w' j deleted
      ∙ ap (λ (there : Bool). if name == j then false else there)
          (keeps-attempt exists j (host.client.task name) (on_task_to_kill host)
            (laws.task_quiet name j) (task_to_kill-quiet j) w)

  absent :
      (name : String) (w : W) (j : String)
      → exists w name ≡ false
      → exists w j ≡ (if name == j then false else exists w j)
  absent name w j gone = elim (String-cases name j) [
    | inl (same, test) ↦ rw test (ap (exists w) (sym same) ∙ gone)
    | inr (other, test) ↦ rw test refl
  ]

  module _ (name : String) (w : W) where
    w₁ : W
    w₁ = (host.client.load_container name w).1

    on_loaded :
        (r : Result (Unit {0}))
        → (host.client.load_container name w).0 ≡ r
        → r ≢ err failed
        → (on_container host name r w₁).0 ≡ ok tt
        → (j : String)
        → exists (on_container host name r w₁).1 j ≡ (if name == j then false else exists w j)
    unfolding w₁
    on_loaded (ok a) loaded known done j =
        loaded-deletes name w₁ j done
        ∙ ap (λ (there : Bool). if name == j then false else there) (laws.load_quiet name j w)
    on_loaded (err not_found) loaded known done j =
        unloaded-quiet name j not_found w₁
        ∙ laws.load_quiet name j w
        ∙ absent name w j (laws.load_not_found name w loaded)
    on_loaded (err failed) loaded known done j = absurd (known refl)

  -- Remove that returns no error takes the container out of the set of those that there are, and no
  -- other one, where containerd loads the container or says that it is not found.
  pub remove-deletes :
      (name : String) (w : W) (j : String)
      → (host.client.load_container name w).0 ≢ err failed
      → (remove host name w).0 ≡ ok tt
      → exists (remove host name w).1 j ≡ (if name == j then false else exists w j)
  unfolding remove w₁
  remove-deletes name w j known done =
      on_loaded name w (host.client.load_container name w).0 refl known done j

  -- Where containerd fails to load the container for another reason than that it is not found,
  -- Remove returns no error and leaves every container in place; nothing is said here of the
  -- snapshot of that name, which Remove still deletes where it finds it.
  pub remove-hides_failure :
      (name : String) (w : W) (j : String)
      → (host.client.load_container name w).0 ≡ err failed
      → ((remove host name w).0 ≡ ok tt) × (exists (remove host name w).1 j ≡ exists w j)
  unfolding remove
  remove-hides_failure name w j broken =
      let w' = (host.client.load_container name w).1 in
      let same : remove host name w ≡ on_container host name (err failed) w' =
        ap (λ (r : Result (Unit {0})). on_container host name r w') broken in
      (
        ap (λ (r : Result (Unit {0}) × W). r.0) same ∙ unloaded_ok name failed w',
        ap (λ (r : Result (Unit {0}) × W). exists r.1 j) same
            ∙ unloaded-quiet name j failed w'
            ∙ laws.load_quiet name j w,
      )
