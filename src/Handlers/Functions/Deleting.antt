-- ===== src/Handlers/Functions/Deleting.antt =====
-- DeleteFunction of functions.go against the set of the containers.
use faasd.Prelude.{String, ◌==◌, ◌≡◌, ◌≢◌, refl, sym, ap, ◌∙◌, Bool, false, if◌then◌else◌, Map}
use faasd.Effects.{Result, ok, err, failed}
use faasd.Effects.Calls.{succeed, ◌>>◌, attempt, regardless}
use faasd.Effects.Frame.{KeepsAt, keeps-bind, keeps-then, keeps-attempt, bind-eq-ok}
use faasd.Runtime.{Task, TaskStatus, running, created, stopped, paused, pausing, unknown}
use faasd.Runtime.Network.{get_ip_address, delete_cni_network, on_task, net_id, net_namespace}
use faasd.Runtime.Network.Quiet.{get_ip_address-quiet}
use faasd.Runtime.Service.{remove}
use faasd.Runtime.Service.Removal.{IsContainers, remove-deletes}
use faasd.Handlers.Functions.{
  Engine, Function, labels_or_nil, described, with_address, with_status, with_task, describe,
  get_function, delete_function,
}

-- What else leaves the containers as they are.
pub record IsEngine {W : Type 0} (engine : Engine W) (exists : W → String → Bool) : Type 0 where
  pub containers : IsContainers engine.host exists
  pub image_quiet : (n j : String) → KeepsAt exists j (engine.image_of n)
  pub labels_quiet : (n j : String) → KeepsAt exists j (engine.labels_of n)
  pub spec_quiet : (n j : String) → KeepsAt exists j (engine.spec_of n)
  pub created_quiet : (n j : String) → KeepsAt exists j (engine.created_of n)
  pub network_quiet : (id netns j : String) → KeepsAt exists j (engine.host.cni.remove id netns)
  pub read_quiet : (dir j : String) → KeepsAt exists j (engine.host.files.read_dir dir)
  pub open_quiet : (file j : String) → KeepsAt exists j (engine.host.files.open_file file)

module _ {W : Type 0} (engine : Engine W) (exists : W → String → Bool)
    (laws : IsEngine engine exists) where
  with_status-quiet :
      (fn : Function) (t : Task) (j : String) (s : TaskStatus)
      → KeepsAt exists j (with_status engine fn t s)
  with_status-quiet fn t j running w =
      keeps-bind exists j (get_ip_address engine.host fn.name t.pid)
        (λ ip. succeed (with_address engine fn t ip))
        (get_ip_address-quiet engine.host exists laws.read_quiet laws.open_quiet fn.name t.pid j)
        (λ ip v. refl) w
  with_status-quiet fn t j created w = refl
  with_status-quiet fn t j stopped w = refl
  with_status-quiet fn t j paused w = refl
  with_status-quiet fn t j pausing w = refl
  with_status-quiet fn t j unknown w = refl

  with_task-quiet :
      (fn : Function) (j : String) (r : Result Task) → KeepsAt exists j (with_task engine fn r)
  with_task-quiet fn j (ok t) w =
      keeps-bind exists j (engine.host.client.status t) (with_status engine fn t)
        (laws.containers.status_quiet t j) (with_status-quiet fn t j) w
  with_task-quiet fn j (err e) w = refl

  describe-quiet :
      (name namespace image : String) (labels : Map String) (j : String)
      → KeepsAt exists j (describe engine name namespace image labels)
  unfolding describe
  describe-quiet name namespace image labels j =
      keeps-bind exists j (engine.spec_of name) _ (laws.spec_quiet name j) (λ spec.
        keeps-bind exists j (engine.created_of name) _ (laws.created_quiet name j) (λ at.
          keeps-attempt exists j (engine.host.client.task name)
            (with_task engine (described name namespace image labels spec at))
            (laws.containers.task_quiet name j)
            (with_task-quiet (described name namespace image labels spec at) j)))

  get_function-quiet :
      (name namespace j : String) → KeepsAt exists j (get_function engine name namespace)
  unfolding get_function
  get_function-quiet name namespace j =
      keeps-bind exists j (engine.host.client.load_container name >> engine.image_of name) _
        (keeps-then exists j (engine.host.client.load_container name) (engine.image_of name)
          (laws.containers.load_quiet name j) (laws.image_quiet name j))
        (λ image.
          keeps-attempt exists j (engine.labels_of name)
            (λ labels. describe engine name namespace image (labels_or_nil labels))
            (laws.labels_quiet name j)
            (λ labels. describe-quiet name namespace image (labels_or_nil labels) j))

  on_task-quiet : (j : String) (r : Result Task) → KeepsAt exists j (on_task engine.host r)
  on_task-quiet j (ok t) w = laws.network_quiet (net_id t) (net_namespace t) j w
  on_task-quiet j (err e) w = refl

  network-quiet : (name j : String) → KeepsAt exists j (delete_cni_network engine.host name)
  unfolding delete_cni_network
  network-quiet name j =
      keeps-then exists j (engine.host.client.load_container name)
        (attempt (engine.host.client.task name) (on_task engine.host))
        (laws.containers.load_quiet name j)
        (keeps-attempt exists j (engine.host.client.task name) (on_task engine.host)
          (laws.containers.task_quiet name j) (on_task-quiet j))

  -- The world in which DeleteFunction calls Remove.
  abbrev pub before_remove : String → String → W → W
  before_remove name namespace w =
      (delete_cni_network engine.host name (get_function engine name namespace w).1).1

  -- DeleteFunction that returns no error takes the container of the function out of the set of
  -- those that there are, and no other one, where Remove can load the container or is told that
  -- there is none.
  pub delete_function-deletes :
      (name namespace : String) (w : W) (j : String)
      → (engine.host.client.load_container name (before_remove name namespace w)).0 ≢ err failed
      → (delete_function engine name namespace w).0 ≡ ok tt
      → exists (delete_function engine name namespace w).1 j
        ≡ (if name == j then false else exists w j)
  unfolding delete_function
  delete_function-deletes name namespace w j answers done =
      let network = delete_cni_network engine.host name in
      let last = regardless network (remove engine.host name) in
      let (fn, found, same) =
        bind-eq-ok (get_function engine name namespace) (λ ignored. last) w tt done in
      let w₁ = (get_function engine name namespace w).1 in
      let w₂ = (network w₁).1 in
      let removed = ap (λ (r : Result (Unit {0}) × W). r.0) (sym same) ∙ done in
      ap (λ (r : Result (Unit {0}) × W). exists r.1 j) same
      ∙ remove-deletes engine.host exists laws.containers name w₂ j answers removed
      ∙ ap (λ (there : Bool). if name == j then false else there)
          (network-quiet name j w₁ ∙ get_function-quiet name namespace j w)
