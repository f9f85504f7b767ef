-- ===== src/Tests/Containers.antt =====
-- The theorems on containers (pkg/service, functions.go, delete.go) at a node that keeps the status
-- of the task of each container.
use faasd.Prelude.{
  String, ◌==◌, ◌≡◌, refl, sym, ap, Bool, true, false, Option, none, some, [], ◌∷◌, Map, keys,
  lookup, insert, delete, contains_key, is_some, lookup-insert_self, lookup-insert_other,
  lookup-delete, if◌then◌else◌, arith, decimal,
}
use faasd.Effects.{Result, ok, err, not_found, failed}
use faasd.Runtime.{Task, TaskStatus, running, created, stopped, Containerd, Host}
use faasd.Runtime.Service.Sparing.{IsRuntime}
use faasd.Runtime.Service.Removal.{IsContainers, remove-hides_failure}
use faasd.Runtime.Service.All.{AllRun, ensure_all_task_running-AllRun}
use faasd.Runtime.Network.{create_cni_network, get_ip_address}
use faasd.Runtime.Service.{ensure_all_task_running, ensure_task_running, create_task, remove}

abbrev pub Tasks : Type 0
Tasks = Map TaskStatus

abbrev pub told : {A : Type 0} → Option A → Result A
told none = err not_found
told (some a) = ok a

abbrev pub task_named : String → Task
task_named name = record { id = name; pid = 1 }

abbrev pub named : String → Option TaskStatus → Result Task
named name none = err not_found
named name (some s) = ok (task_named name)

abbrev pub loaded : Option TaskStatus → Result (Unit {0})
loaded none = err not_found
loaded (some s) = ok tt

abbrev pub client : Containerd Tasks
client = record {
  containers = λ w. (ok (keys w), w);
  load_container = λ name w. (loaded (lookup name w), w);
  task = λ name w. (named name (lookup name w), w);
  new_task = λ name w. (ok (task_named name), insert name created w);
  wait = λ t w. (ok tt, w);
  start = λ t w. (ok tt, insert t.id running w);
  status = λ t w. (told (lookup t.id w), w);
  kill = λ t s w. (ok tt, w);
  exits_in_time = λ t w. (true, w);
  resume = λ t w. (ok tt, insert t.id running w);
  delete_task = λ t w. (ok tt, w);
  delete_container = λ name w. (ok tt, delete name w);
  has_snapshot = λ key w. (err not_found, w);
  remove_snapshot = λ key w. (ok tt, w);
}

-- One address is given to the first process of `echo`.
abbrev pub host : Host Tasks
host = record {
  client = client;
  cni = record { setup = λ id netns w. (ok tt, w); remove = λ id netns w. (ok tt, w) };
  files = record {
    read_dir = λ dir w. (ok ("10.62.0.2" ∷ []), w);
    open_file = λ file w. (ok "echo-1\neth1", w);
  };
}

abbrev status_of : Tasks → String → Option TaskStatus
status_of w name = lookup name w

abbrev pub exists : Tasks → String → Bool
exists w name = contains_key name w

host-IsRuntime : IsRuntime host status_of
host-IsRuntime = record {
  containers_quiet = λ j w. refl;
  load_quiet = λ n j w. refl;
  task_quiet = λ n j w. refl;
  status_quiet = λ t j w. refl;
  wait_quiet = λ t j w. refl;
  setup_quiet = λ id netns j w. refl;
  read_quiet = λ dir j w. refl;
  open_quiet = λ file j w. refl;
  new_task_spares = λ n j other w. lookup-insert_other n j created w other;
  start_spares = λ t j other w. lookup-insert_other t.id j running w other;
  resume_spares = λ t j other w. lookup-insert_other t.id j running w other;
  kill_spares = λ t s j other w. refl;
  delete_spares = λ t j other w. refl;
  task_id = λ n w t found. named_id n (lookup n w) t found;
  new_task_id = λ n w t made. ap (λ (r : Result Task). id_of n r) (sym made);
  status_told = λ t w s said. told_some (lookup t.id w) s said;
  start_runs = λ t w started. lookup-insert_self t.id running w;
  resume_runs = λ t w resumed. lookup-insert_self t.id running w;
}
  where
    id_of : String → Result Task → String
    id_of n (ok t) = t.id
    id_of n (err e) = n

    named_id : (n : String) (o : Option TaskStatus) (t : Task) → named n o ≡ ok t → t.id ≡ n
    named_id n none t found = cc
    named_id n (some s) t found = ap (id_of n) (sym found)

    told_some : (o : Option TaskStatus) (s : TaskStatus) → told o ≡ ok s → o ≡ some s
    told_some none s said = cc
    told_some (some a) s said = cc

pub host-IsContainers : IsContainers host exists
unfolding contains_key
host-IsContainers = record {
  load_quiet = λ n j w. refl;
  task_quiet = λ n j w. refl;
  status_quiet = λ t j w. refl;
  wait_quiet = λ t j w. refl;
  kill_quiet = λ t s j w. refl;
  delete_task_quiet = λ t j w. refl;
  time_quiet = λ t w j. refl;
  stat_quiet = λ key j w. refl;
  snapshot_quiet = λ key j w. refl;
  load_not_found = λ n w said. absent (lookup n w) said;
  deleted = λ n w j done. after n j w;
}
  where
    absent : (o : Option TaskStatus) → loaded o ≡ err not_found → is_some o ≡ false
    absent none said = refl
    absent (some s) said = cc

    after :
        (n j : String) (w : Tasks)
        → is_some (lookup j (delete n w)) ≡ (if n == j then false else is_some (lookup j w))
    after n j w = rw (lookup-delete n j w) (ground arith)

-- A node whose containerd does not answer.
abbrev broken_host : Host Tasks
broken_host = record host { client = record client { load_container = λ name w. (err failed, w) } }

broken_host-IsContainers : IsContainers broken_host exists
broken_host-IsContainers =
    let laws = host-IsContainers in
    record {
      load_quiet = λ n j w. refl;
      task_quiet = laws.task_quiet;
      status_quiet = laws.status_quiet;
      wait_quiet = laws.wait_quiet;
      kill_quiet = laws.kill_quiet;
      delete_task_quiet = laws.delete_task_quiet;
      time_quiet = laws.time_quiet;
      stat_quiet = laws.stat_quiet;
      snapshot_quiet = laws.snapshot_quiet;
      load_not_found = λ n w said. cc;
      deleted = laws.deleted;
    }

remove-hides_failure_example :
    ((remove broken_host "echo" (("echo", running) ∷ [])).0 ≡ ok tt)
    × (exists (remove broken_host "echo" (("echo", running) ∷ [])).1 "echo"
        ≡ exists (("echo", running) ∷ []) "echo")
remove-hides_failure_example =
    remove-hides_failure broken_host exists broken_host-IsContainers "echo" (("echo", running) ∷ [])
      "echo" refl

abbrev pub halted : Tasks
halted = ("echo", stopped) ∷ []

ensure_all-example-run : (ensure_all_task_running host halted).0 ≡ ok tt
unfolding ensure_all_task_running lookup ensure_task_running create_task create_cni_network
    get_ip_address decimal
ensure_all-example-run = refl

ensure_all_task_running-AllRun_example :
    AllRun host status_of host-IsRuntime (ensure_all_task_running host halted).1 ("echo" ∷ [])
ensure_all_task_running-AllRun_example =
    ensure_all_task_running-AllRun host status_of host-IsRuntime ("echo" ∷ []) halted refl (tt, tt)
      (unfold lookup in (((λ e. cc), (λ e. cc)), tt)) ensure_all-example-run
