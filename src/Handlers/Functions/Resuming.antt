-- ===== src/Handlers/Functions/Resuming.antt =====
-- ResumeOrDeleteFunctions of functions.go.
use faasd.Prelude.{String, List, [], ◌∷◌}
use faasd.Effects.{Result, ok, err}
use faasd.Effects.Calls.{Call, succeed, ◌>>=◌, ◌>>◌, attempt}
use faasd.Runtime.{
  Task, TaskStatus, running, created, stopped, paused, pausing, unknown, Containerd,
}
use faasd.Handlers.Functions.{Engine, delete_function}

module _ {W : Type 0} (engine : Engine W) where
  abbrev client : Containerd W
  client = engine.host.client

  -- The rest of the loop of ResumeOrDeleteFunctions is passed on, since a resumed task ends it.
  abbrev pub delete_and_go_on : String → String → Call W (Unit {0}) → Call W (Unit {0})
  delete_and_go_on name namespace rest = delete_function engine name namespace >> rest

  abbrev pub on_resumed : Call W (Unit {0}) → Result (Unit {0}) → Call W (Unit {0})
  on_resumed fall_through (ok a) = succeed tt
  on_resumed fall_through (err e) = fall_through

  abbrev pub on_first_resume : Task → Result (Unit {0}) → Call W (Unit {0})
  on_first_resume task (ok a) = succeed tt
  on_first_resume task (err e) = client.delete_task task

  unfoldable pub resume_function :
      String → String → Call W (Unit {0}) → Task → TaskStatus → Call W (Unit {0})
  unfolding delete_function
  resume_function name namespace rest task paused =
      attempt (client.resume task) (on_first_resume task)
      >> attempt (client.resume task) (on_resumed (delete_and_go_on name namespace rest))
  resume_function name namespace rest task pausing =
      attempt (client.resume task) (on_resumed (delete_and_go_on name namespace rest))
  resume_function name namespace rest task stopped =
      client.delete_task task >> delete_and_go_on name namespace rest
  resume_function name namespace rest task unknown = delete_and_go_on name namespace rest
  resume_function name namespace rest task running = rest
  resume_function name namespace rest task created = rest

  unfoldable pub resume_or_delete : String → List String → Call W (Unit {0})
  unfolding resume_function
  resume_or_delete namespace [] = succeed tt
  resume_or_delete namespace (name ∷ names) =
      client.load_container name >> client.task name >>= (λ task.
        client.status task
        >>= resume_function name namespace (resume_or_delete namespace names) task)

  unfoldable pub resume_or_delete_functions : String → Call W (Unit {0})
  unfolding resume_or_delete
  resume_or_delete_functions namespace = client.containers >>= resume_or_delete namespace
