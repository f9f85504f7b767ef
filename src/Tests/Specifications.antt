-- ===== src/Tests/Specifications.antt =====
-- The theorems on the specification of containers (deploy.go, functions.go), on images and on secrets.
use faasd.Prelude.{
  String, ◌<>◌, ◌==◌, ◌≡◌, refl, Bool, true, false, none, some, List, [], ◌∷◌, Map, lookup,
  contains_key, contains_char, contains_text, ◌||◌, decimal, if◌then◌else◌, IsPlain, clean_parts,
  join_with, strip_prefix, strip_prefix-append,
}
use faasd.Effects.{pure, return, blocked, ◌>>=◌, ok, err, not_found}
use faasd.Handlers.Server.{in_world, status_bad_request}
use faasd.Handlers.Lifecycle.{FunctionDeployment, get_request_namespace}
use faasd.Handlers.Specification.{
  annotation_label_prefix, build_labels, build_labels_and_annotations, prepare_env,
  read_env_from_process_env,
}
use faasd.Handlers.Specification.Labels.Separating.{strips-ne}
use faasd.Handlers.Specification.Labels.{build_labels-round_trip}
use faasd.Handlers.Specification.Environment.{prepare_env-round_trip}
use faasd.Runtime.Service.Images.{Registry, prepare_image}
use faasd.Runtime.Service.Unpacking.{IsRegistry, Ready, prepare_image-Ready}
use faasd.Handlers.Secrets.{
  Secret, Disk, is_blank, get_namespace_secret_mount_path, create_secret, delete_secret, fail_with,
  or_internal,
}
use faasd.Handlers.Secrets.Paths.{
  directory, file_at, written_to, create_secret-inside, delete_secret-escapes,
}
use faasd.Proxy.{Poll, Proxy, get_upstream, start_proxy}
use faasd.Proxy.Waiting.{first_address, start_proxy-eq}
use faasd.Tests.Requests.{service, server}

-- One label and one annotation.
abbrev pub echo : FunctionDeployment
echo = record {
  service = "echo";
  image = "alexellis2/echo";
  namespace = "";
  env_process = "cat";
  env_vars = ("mode", "http") ∷ [];
  constraints = [];
  secrets = "token" ∷ [];
  labels = some (("tier", "1") ∷ []);
  annotations = some (("topic", "a") ∷ []);
  limits = none;
  requests = none;
  read_only_root_filesystem = false;
}

tier-plain : strip_prefix annotation_label_prefix "tier" ≡ none
unfolding strip_prefix
tier-plain = refl

pub tier-ne : (name : String) → ("tier" == annotation_label_prefix <> name) ≡ false
tier-ne name =
    strips-ne "tier" (annotation_label_prefix <> name)
      (λ e. cc (e, tier-plain, strip_prefix-append annotation_label_prefix name))

build_labels-round_trip_example :
    (built : Map String) × (build_labels echo ≡ ok built)
    × ((k : String)
        → lookup k (build_labels_and_annotations built).0 ≡ lookup k (("tier", "1") ∷ []))
    × ((k : String)
        → lookup k (build_labels_and_annotations built).1 ≡ lookup k (("topic", "a") ∷ []))
unfolding lookup contains_key
build_labels-round_trip_example =
    build_labels-round_trip echo (refl, tt) (refl, tt) (λ name. rw (tier-ne name) refl)

abbrev mode : Map String
mode = ("mode", "http") ∷ []

-- The process comes back, and so does the variable.
prepare_env-round_trip_example :
    (lookup "mode" (read_env_from_process_env (prepare_env "cat" mode)).0
      ≡ (if "fprocess" == "mode" then none else lookup "mode" mode))
    × ((read_env_from_process_env (prepare_env "cat" mode)).1
        ≡ (if contains_key "fprocess" mode then "" else "cat"))
unfolding contains_key lookup contains_char
prepare_env-round_trip_example =
    prepare_env-round_trip "cat" mode "mode" (refl, tt) ((refl, refl, refl), tt) refl

pub token-IsPlain : IsPlain "token"
unfolding contains_char
token-IsPlain = record { one_part = refl; not_empty = refl; not_here = refl; not_above = refl }

-- A registry with one image, which is unpacked once it was asked for.
abbrev registry : Registry Bool String (Unit {0})
registry = record {
  has_config = λ w. (err not_found, w);
  resolver = λ w. (ok tt, w);
  get_image = λ name w. (err not_found, w);
  pull = λ name resolver w. (ok name, w);
  is_unpacked = λ image snapshotter w. (ok w, w);
  unpack = λ image snapshotter w. (ok tt, true);
}

abbrev ready : Bool → String → String → Bool
ready w image snapshotter = w

registry-IsRegistry : IsRegistry registry ready
registry-IsRegistry = record { told = λ i s w b said. cc; unpacks = λ i s w done. refl }

prepare_image-Ready_example :
    Ready registry ready registry-IsRegistry "echo" ""
      (prepare_image registry "echo" "" false false)
unfolding prepare_image
prepare_image-Ready_example =
    prepare_image-Ready registry ready registry-IsRegistry "echo" "" false "echo" false refl

abbrev disk : Disk (Unit {0})
disk = record {
  mkdir_all = λ path w. (ok tt, w);
  write_file = λ path value w. (ok tt, w);
  remove = λ path w. (ok tt, w);
  read_dir = λ path w. (ok [], w);
}

abbrev secrets_path : String
secrets_path = "/var/lib/faasd-provider/secrets"

abbrev token : Secret
token = record { name = "token"; namespace = ""; value = "abc"; raw_value = "" }

create_secret-inside_example : create_secret disk service secrets_path (some token) server ≡ (
    if is_blank "token" || (contains_text "/" "token" || contains_text ".." "token")
    then fail_with disk service secrets_path status_bad_request server
    else written_to disk service secrets_path token
        (file_at disk service secrets_path
          ("token" ∷ clean_parts (directory disk service secrets_path "")))
        server)
unfolding get_namespace_secret_mount_path get_request_namespace join_with
create_secret-inside_example = create_secret-inside disk service secrets_path token server refl refl

abbrev outside : Secret
outside = record { name = "../token"; namespace = ""; value = ""; raw_value = "" }

delete_secret-escapes_example :
    delete_secret disk service secrets_path "" (some outside) server
    ≡ (in_world (
            disk.remove (
              file_at disk service secrets_path
                ("token" ∷ "secrets" ∷ "faasd-provider" ∷ "lib" ∷ "var" ∷ [])))
          >>= or_internal disk service secrets_path (pure []))
        server
unfolding get_namespace_secret_mount_path get_request_namespace join_with
delete_secret-escapes_example =
    delete_secret-escapes disk service secrets_path "" "token" outside server "openfaas-fn"
      ("secrets" ∷ "faasd-provider" ∷ "lib" ∷ "var" ∷ []) refl refl refl token-IsPlain refl

-- A proxy to a host that the second poll finds.
abbrev proxy : Proxy
proxy = record { upstream = "gateway:8080"; port = 80; host_ip = "0.0.0.0" }

abbrev polls : List Poll
polls =
    record { hosts = []; timed_out = false }
    ∷ record { hosts = ("gateway", "10.62.0.9") ∷ []; timed_out = false }
    ∷ []

start_proxy-eq_example : start_proxy proxy polls ≡ (
    if first_address "gateway" polls == ""
    then blocked
    else return (
        ok (
          "0.0.0.0" <> (":" <> decimal 80),
          first_address "gateway" polls <> (":" <> decimal 8080),
        )))
unfolding get_upstream
start_proxy-eq_example = start_proxy-eq proxy polls "gateway" 8080 refl
