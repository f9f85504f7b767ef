-- ===== src/Runtime/Service/All.antt =====
-- EnsureAllTaskRunning of pkg/service/service.go.
use faasd.Prelude.{
  String, ◌==◌, ◌≡◌, refl, sym, ap, ◌∙◌, subst, false, Option, some, List, [], ◌∷◌, All, arith,
  eq_iff,
}
use faasd.Effects.{Result, ok}
use faasd.Effects.Calls.{on_success}
use faasd.Effects.Frame.{KeepsAt, keeps-then, bind-eq-ok}
use faasd.Runtime.{TaskStatus, running, Host}
use faasd.Runtime.Service.{ensure_task_running, ensure_tasks, ensure_all_task_running}
use faasd.Runtime.Service.Sparing.{IsRuntime, ensure-spares}
use faasd.Runtime.Service.Running.{Startable, Startable-kept, ensure_task_running-Runs}

abbrev pub Differs : String → List String → Type 0
Differs name names = All (λ (n : String). (n == name) ≡ false) names

-- Each name once, as containerd lists its containers.
abbrev pub DistinctNames : List String → Type 0
DistinctNames [] = Unit
DistinctNames (name ∷ names) = Differs name names × DistinctNames names

eq-false_sym : (s t : String) → (s == t) ≡ false → (t == s) ≡ false
eq-false_sym s t other = ground (arith, eq_iff s t, eq_iff t s)

module _ {W : Type 0} (host : Host W) (status_of : W → String → Option TaskStatus)
    (laws : IsRuntime host status_of) where
  abbrev pub AllStartable : W → List String → Type 0
  AllStartable w names = All (Startable host status_of laws w) names

  abbrev pub AllRun : W → List String → Type 0
  AllRun w names = All (λ (name : String). status_of w name ≡ some running) names

  tasks-spare :
      (j : String) (names : List String)
      → Differs j names
      → KeepsAt status_of j (ensure_tasks host names)
  unfolding ensure_tasks
  tasks-spare j [] differs w = refl
  tasks-spare j (name ∷ names) (other, differs) w =
      keeps-then status_of j (ensure_task_running host name) (ensure_tasks host names)
        (ensure-spares host status_of laws name j other) (tasks-spare j names differs) w

  startable_after :
      (name : String) (names : List String) (w : W)
      → Differs name names
      → AllStartable w names
      → AllStartable (ensure_task_running host name w).1 names
  startable_after name [] w differs startable = tt
  startable_after name (n ∷ names) w (other, differs) (first, rest) = (
    Startable-kept host status_of laws n (ensure_task_running host name w).1 w
        (ensure-spares host status_of laws name n (eq-false_sym n name other) w) first,
    startable_after name names w differs rest,
  )

  startable_listed :
      (names : List String) (w : W)
      → AllStartable w names
      → AllStartable (host.client.containers w).1 names
  startable_listed [] w startable = tt
  startable_listed (n ∷ names) w (first, rest) = (
    Startable-kept host status_of laws n (host.client.containers w).1 w (laws.containers_quiet n w)
        first,
    startable_listed names w rest,
  )

  tasks-AllRun :
      (names : List String) (w : W)
      → DistinctNames names
      → AllStartable w names
      → (ensure_tasks host names w).0 ≡ ok tt
      → AllRun (ensure_tasks host names w).1 names
  unfolding ensure_tasks
  tasks-AllRun [] w distinct startable done = tt
  tasks-AllRun (name ∷ names) w (differs, distinct) (first, rest) done =
      let (a, ran, same) =
        bind-eq-ok (ensure_task_running host name) (λ ignored. ensure_tasks host names) w tt done in
      let w' = (ensure_task_running host name w).1 in
      let finished : (ensure_tasks host names w').0 ≡ ok tt =
        ap (λ (r : Result (Unit {0}) × W). r.0) (sym same) ∙ done in
      (
        ap (λ (r : Result (Unit {0}) × W). status_of r.1 name) same
            ∙ tasks-spare name names differs w'
            ∙ ensure_task_running-Runs host status_of laws name w first ran,
        subst (λ (v : W). AllRun v names) (ap (λ (r : Result (Unit {0}) × W). r.1) (sym same))
            (tasks-AllRun names w' distinct (startable_after name names w differs rest) finished),
      )

  -- On a runtime that behaves as documented and lists each container once, where no task is being
  -- created or being paused, EnsureAllTaskRunning that returns no error leaves the task of every
  -- container that was listed running.
  pub ensure_all_task_running-AllRun :
      (names : List String) (w : W)
      → (host.client.containers w).0 ≡ ok names
      → DistinctNames names
      → AllStartable w names
      → (ensure_all_task_running host w).0 ≡ ok tt
      → AllRun (ensure_all_task_running host w).1 names
  unfolding ensure_all_task_running
  ensure_all_task_running-AllRun names w listed distinct startable done =
      let w' = (host.client.containers w).1 in
      let same : ensure_all_task_running host w ≡ ensure_tasks host names w' =
        ap (λ (r : Result (List String)). on_success (ensure_tasks host) r w') listed in
      subst (λ (v : W). AllRun v names) (ap (λ (r : Result (Unit {0}) × W). r.1) (sym same))
        (tasks-AllRun names w' distinct (startable_listed names w startable)
          (ap (λ (r : Result (Unit {0}) × W). r.0) (sym same) ∙ done))
