-- ===== src/Handlers/Deploying/Stored.antt =====
-- What containerd keeps of a container that deploy.go makes, and what GetFunction (functions.go)
-- takes from it.
use faasd.Prelude.{ℕ, String, ◌≡◌, refl, sym, ap, ◌∙◌, subst, Option, some, List, [], ◌++◌, Map}
use faasd.Effects.{Result, ok, err}
use faasd.Effects.Calls.{succeed, on_success, ◌>>=◌, attempt}
use faasd.Effects.Frame.{KeepsAt, bind-eq-ok}
use faasd.Runtime.{Task, TaskStatus, running, created, stopped, paused, pausing, unknown}
use faasd.Handlers.Specification.{Mount, Spec, read_secrets}
use faasd.Handlers.Functions.{
  Engine, Function, described, with_address, with_status, with_task, describe,
}
use faasd.Handlers.Deploying.{ContainerOptions, Platform}

-- The options that each container was made with, as containerd keeps them: the labels, and the
-- mounts behind those of every container, which hold no secret. Nothing is said of the variables,
-- which containerd merges with those of the image.
pub record Stores {W I R : Type 0} (platform : Platform W I R)
    (held : W → String → Option (ContainerOptions I)) : Type 0 where
  pub default_mounts : List Mount
  pub no_secret : read_secrets default_mounts [] ≡ []
  pub stored :
      (o : ContainerOptions I) (w : W)
      → (platform.new_container o w).0 ≡ ok tt
      → held (platform.new_container o w).1 o.name ≡ some o
  pub labels_told :
      (n : String) (w : W) (o : ContainerOptions I)
      → held w n ≡ some o
      → (platform.engine.labels_of n w).0 ≡ ok o.labels
  pub spec_told :
      (n : String) (w : W) (o : ContainerOptions I) (spec : Spec)
      → held w n ≡ some o
      → (platform.engine.spec_of n w).0 ≡ ok spec
      → spec.mounts ≡ default_mounts ++ o.mounts
  pub new_task_quiet : (n j : String) → KeepsAt held j (platform.engine.host.client.new_task n)
  pub wait_quiet : (t : Task) (j : String) → KeepsAt held j (platform.engine.host.client.wait t)
  pub start_quiet : (t : Task) (j : String) → KeepsAt held j (platform.engine.host.client.start t)
  pub setup_quiet : (id netns j : String) → KeepsAt held j (platform.engine.host.cni.setup id netns)
  pub read_quiet : (dir j : String) → KeepsAt held j (platform.engine.host.files.read_dir dir)
  pub open_quiet : (file j : String) → KeepsAt held j (platform.engine.host.files.open_file file)
  pub load_quiet : (n j : String) → KeepsAt held j (platform.engine.host.client.load_container n)
  pub image_quiet : (n j : String) → KeepsAt held j (platform.engine.image_of n)
  pub labels_quiet : (n j : String) → KeepsAt held j (platform.engine.labels_of n)

-- The parts of a function that come from its specification are the same.
abbrev pub Same : Function → Function → Type 0
Same f g =
    (g.labels ≡ f.labels)
    × (g.annotations ≡ f.annotations)
    × (g.secrets ≡ f.secrets)
    × (g.env_vars ≡ f.env_vars)
    × (g.env_process ≡ f.env_process)

module _ {W : Type 0} (engine : Engine W) where
  addressed-Same :
      (f g : Function) (t : Task) (r : Result String) (w : W)
      → (on_success (λ ip. succeed (with_address engine f t ip)) r w).0 ≡ ok g
      → Same f g
  addressed-Same f g t (ok ip) w done =
      let same : with_address engine f t ip ≡ g = cc in
      subst (Same f) same (refl, refl, refl, refl, refl)
  addressed-Same f g t (err e) w done = cc

  kept-Same : (f g : Function) → ok f ≡ ok g → Same f g
  kept-Same f g done = let same : f ≡ g = cc in subst (Same f) same (refl, refl, refl, refl, refl)

  status-Same :
      (f g : Function) (t : Task) (s : TaskStatus) (w : W)
      → (with_status engine f t s w).0 ≡ ok g
      → Same f g
  status-Same f g t running w done = addressed-Same f g t _ _ done
  status-Same f g t created w done = kept-Same f g done
  status-Same f g t stopped w done = kept-Same f g done
  status-Same f g t paused w done = kept-Same f g done
  status-Same f g t pausing w done = kept-Same f g done
  status-Same f g t unknown w done = kept-Same f g done

  task-Same :
      (f g : Function) (r : Result Task) (w : W) → (with_task engine f r w).0 ≡ ok g → Same f g
  task-Same f g (err e) w done = kept-Same f g done
  task-Same f g (ok t) w done =
      let (s, told, rest) =
        bind-eq-ok (engine.host.client.status t) (with_status engine f t) w g done in
      status-Same f g t s (engine.host.client.status t w).1
        (ap (λ (r : Result Function × W). r.0) (sym rest) ∙ done)

  pub describe-Same :
      (name namespace image : String) (labels : Map String) (g : Function) (w : W)
      → (describe engine name namespace image labels w).0 ≡ ok g
      → (spec : Spec) × (at : ℕ) × ((engine.spec_of name w).0 ≡ ok spec)
        × Same (described name namespace image labels spec at) g
  unfolding describe
  describe-Same name namespace image labels g w done =
      let tail = λ (spec : Spec) (at : ℕ).
        attempt (engine.host.client.task name)
          (with_task engine (described name namespace image labels spec at)) in
      let dated = λ (spec : Spec). engine.created_of name >>= tail spec in
      let (spec, told, rest) = bind-eq-ok (engine.spec_of name) dated w g done in
      let w₁ = (engine.spec_of name w).1 in
      let (at, said, last) =
        bind-eq-ok (engine.created_of name) (tail spec) w₁ g
          (ap (λ (r : Result Function × W). r.0) (sym rest) ∙ done) in
      let w₂ = (engine.created_of name w₁).1 in
      (
        spec,
        at,
        told,
        task-Same (described name namespace image labels spec at) g
            (engine.host.client.task name w₂).0 (engine.host.client.task name w₂).1
            (ap (λ (r : Result Function × W). r.0) (sym last)
              ∙ ap (λ (r : Result Function × W). r.0) (sym rest)
              ∙ done),
      )
