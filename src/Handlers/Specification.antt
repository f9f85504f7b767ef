-- ===== src/Handlers/Specification.antt =====
-- The specification of a container: what pkg/provider/handlers/deploy.go writes into it for a
-- function, and what functions.go reads back. Quantities and images are a library's.
pub mod Labels
pub mod Environment
pub mod Secrets
pub mod Memory
use faasd.Prelude.{
  ℕ, String, ◌<>◌, ◌==◌, Bool, true, false, ◌||◌, not, Option, none, some, List, [], ◌∷◌, ◌++◌, Map,
  lookup, insert, is_some, get_or, if◌then◌else◌, split, strip_prefix, cut_at, path_join,
}
use faasd.Effects.{Result, ok, err, failed}
use faasd.Catalog.Types.{FunctionResources}
use faasd.Handlers.Lifecycle.{FunctionDeployment}

abbrev pub annotation_label_prefix : String
annotation_label_prefix = "com.openfaas.annotations."

-- int64
pub data ℤ : Type 0 where
  pos negsuc : ℕ → ℤ

-- specs.Mount
pub record Mount : Type 0 where
  pub destination : String
  pub kind : String
  pub source : String
  pub options : List String

-- specs.Linux as far as the memory goes; a pointer is an option
pub record LinuxMemory : Type 0 where
  pub limit : Option ℤ

pub record LinuxResources : Type 0 where
  pub memory : Option LinuxMemory

pub record Linux : Type 0 where
  pub resources : Option LinuxResources

-- oci.Spec
pub record Spec : Type 0 where
  pub env : List String
  pub mounts : List Mount
  pub linux : Option Linux

-- The loop over the labels of the request.
unfoldable pub copy_labels : Map String → Map String → Map String
unfolding insert
copy_labels [] labels = labels
copy_labels ((k, v) ∷ rest) labels = copy_labels rest (insert k v labels)

-- The loop over the annotations, which ends at a key that is taken.
unfoldable pub add_annotations : Map String → Map String → Result (Map String)
unfolding insert lookup
add_annotations [] labels = ok labels
add_annotations ((k, v) ∷ rest) labels =
    let key = annotation_label_prefix <> k in
    let later = add_annotations rest (insert key v labels) in
    if is_some (lookup key labels) then err failed else later

unfoldable pub build_labels : FunctionDeployment → Result (Map String)
unfolding copy_labels add_annotations
build_labels request =
    add_annotations (get_or [] request.annotations) (copy_labels (get_or [] request.labels) [])

-- One key, with what strings.TrimPrefix leaves of it where it has the prefix.
abbrev pub put_label :
    Option String → String → String → Map String × Map String → Map String × Map String
put_label (some name) k v (labels, annotations) = (labels, insert name v annotations)
put_label none k v (labels, annotations) = (insert k v labels, annotations)

-- The loop of buildLabelsAndAnnotations.
unfoldable pub separate : Map String → Map String × Map String → Map String × Map String
unfolding strip_prefix insert
separate [] found = found
separate ((k, v) ∷ rest) found =
    separate rest (put_label (strip_prefix annotation_label_prefix k) k v found)

unfoldable pub build_labels_and_annotations : Map String → Map String × Map String
unfolding separate
build_labels_and_annotations ctr_labels = separate ctr_labels ([], [])

-- The variables so far, whether there is a process, and its line.
pub record Envs : Type 0 where
  pub envs : List String
  pub fprocess_found : Bool
  pub fprocess : String

abbrev pub add_env : Envs → String → String → Envs
add_env e k v =
    if k == "fprocess"
    then record e { fprocess_found = true; fprocess = v }
    else record e { envs = e.envs ++ (k <> ("=" <> v)) ∷ [] }

unfoldable pub add_envs : Map String → Envs → Envs
add_envs [] e = e
add_envs ((k, v) ∷ rest) e = add_envs rest (add_env e k v)

abbrev pub with_fprocess : Envs → List String
with_fprocess e = if e.fprocess_found then e.envs ++ e.fprocess ∷ [] else e.envs

unfoldable pub prepare_env : String → Map String → List String
unfolding add_envs
prepare_env env_process req_env_vars = with_fprocess (
    add_envs req_env_vars (record {
      envs = [];
      fprocess_found = not (env_process == "");
      fprocess = "fprocess=" <> env_process;
    }))

-- One variable of the process, split at the character `=`.
abbrev pub add_found : List String → Map String × String → Map String × String
add_found (k ∷ v ∷ more) (found, fprocess) =
    if k == "PATH"
    then (found, fprocess)
    else if k == "fprocess"
    then (found, v)
    else (insert k v found, fprocess)
add_found _ found = found

-- The loop of readEnvFromProcessEnv.
unfoldable pub read_envs : List String → Map String × String → Map String × String
unfolding split insert
read_envs [] found = found
read_envs (e ∷ env) found = read_envs env (add_found (split "=" e) found)

unfoldable pub read_env_from_process_env : List String → Map String × String
unfolding read_envs
read_env_from_process_env env = read_envs env ([], "")

abbrev pub bind_mount : String → String → Mount
bind_mount destination source = record {
  destination = destination;
  kind = "bind";
  source = source;
  options = "rbind" ∷ "ro" ∷ [];
}

abbrev pub hosts_dir : Option String → String
hosts_dir none = "/var/lib/faasd"
hosts_dir (some v) = if v == "" then "/var/lib/faasd" else v

-- The environment variable hosts_dir may be set.
unfoldable pub get_os_mounts : Option String → List Mount
unfolding path_join
get_os_mounts setting =
    bind_mount "/etc/resolv.conf" (path_join (hosts_dir setting) "resolv.conf")
    ∷ bind_mount "/etc/hosts" (path_join (hosts_dir setting) "hosts")
    ∷ []

-- The loop of deploy over the secrets.
unfoldable pub mount_secrets : String → List String → List Mount → List Mount
unfolding path_join
mount_secrets secret_mount_path [] mounts = mounts
mount_secrets secret_mount_path (secret ∷ secrets) mounts =
    mount_secrets secret_mount_path secrets (
      mounts
      ++ bind_mount (path_join "/var/openfaas/secrets" secret) (path_join secret_mount_path secret)
        ∷ [])

-- The second and last piece of strings.Split is what is before the next separator, if any.
abbrev pub up_to : String → Option (String × String) → String
up_to after none = after
up_to after (some (name, more)) = name

abbrev pub second_piece : Option (String × String) → Option String
second_piece none = none
second_piece (some (before, after)) = some (up_to after (cut_at "/var/openfaas/secrets/" after))

abbrev pub secret_of : String → Option String
secret_of destination = second_piece (cut_at "/var/openfaas/secrets/" destination)

-- readSecretsFromMounts, whose result grows at the end.
unfoldable pub read_secrets : List Mount → List String → List String
unfolding cut_at
read_secrets [] secrets = secrets
read_secrets (mnt ∷ mounts) secrets =
    read_secrets mounts
      (elim (secret_of mnt.destination) [ none ↦ secrets | some name ↦ secrets ++ name ∷ [] ])

unfoldable pub read_secrets_from_mounts : List Mount → List String
unfolding read_secrets
read_secrets_from_mounts mounts = read_secrets mounts []

-- resource.ParseQuantity is a parameter; its value is 0 where it fails, which is logged.
unfoldable pub memory_of : (String → Option ℤ) → Option FunctionResources → Option LinuxMemory
memory_of parse_quantity none = none
memory_of parse_quantity (some limits) =
    if limits.memory == ""
    then none
    else some (record { limit = some (get_or (pos 0) (parse_quantity limits.memory)) })

-- The fields that are missing on the way are made.
unfoldable pub with_memory : Option LinuxMemory → Spec → Spec
with_memory none s = s
with_memory (some mem) s =
    let linux : Linux = get_or (record { resources = none }) s.linux in
    let resources : LinuxResources = get_or (record { memory = none }) linux.resources in
    let memory : LinuxMemory = get_or (record { limit = none }) resources.memory in
    record s {
      linux = some (record linux {
        resources = some (record resources { memory = some (record memory { limit = mem.limit }) });
      });
    }

abbrev limit_of : Option LinuxMemory → ℤ
limit_of none = pos 0
limit_of (some m) = get_or (pos 0) m.limit

abbrev limit_in : Option LinuxResources → ℤ
limit_in none = pos 0
limit_in (some r) = limit_of r.memory

unfoldable pub read_memory_limit_from_spec : Spec → ℤ
read_memory_limit_from_spec spec = elim spec.linux [ none ↦ pos 0 | some l ↦ limit_in l.resources ]
