-- ===== src/Tests/Deployments.antt =====
-- A deployment (deploy.go) at a node that keeps the options of each container.
use faasd.Prelude.{String, ◌≡◌, true, false, Option, none, some, [], ◌∷◌, Map, lookup, insert}
use faasd.Effects.{Result, ok, err, not_found, failed}
use faasd.Handlers.Specification.{Spec, mount_secrets, get_os_mounts, prepare_env}
use faasd.Handlers.Functions.{Function, described}
use faasd.Handlers.Deploying.{ContainerOptions, Platform, deploy}
use faasd.Tests.Specifications.{echo}

abbrev Kept : Type 0
Kept = Map (ContainerOptions String)

abbrev labels_or : Option (ContainerOptions String) → Result (Map String)
labels_or none = err not_found
labels_or (some o) = ok o.labels

abbrev spec_or : Option (ContainerOptions String) → Result Spec
spec_or none = err not_found
spec_or (some o) = ok (record { env = o.env; mounts = o.mounts; linux = none })

abbrev platform : Platform Kept String (Unit {0})
platform = record {
  engine = record {
    host = record {
      client = record {
        containers = λ w. (ok [], w);
        load_container = λ name w. (ok tt, w);
        task = λ name w. (err not_found, w);
        new_task = λ name w. (ok (record { id = name; pid = 1 }), w);
        wait = λ t w. (ok tt, w);
        start = λ t w. (ok tt, w);
        status = λ t w. (err failed, w);
        kill = λ t s w. (ok tt, w);
        exits_in_time = λ t w. (true, w);
        resume = λ t w. (ok tt, w);
        delete_task = λ t w. (ok tt, w);
        delete_container = λ name w. (ok tt, w);
        has_snapshot = λ key w. (err not_found, w);
        remove_snapshot = λ key w. (ok tt, w);
      };
      cni = record { setup = λ id netns w. (ok tt, w); remove = λ id netns w. (ok tt, w) };
      files = record {
        read_dir = λ dir w. (ok ("10.62.0.2" ∷ []), w);
        open_file = λ file w. (ok "echo-1\neth1", w);
      };
    };
    image_of = λ name w. (ok "echo:latest", w);
    labels_of = λ name w. (labels_or (lookup name w), w);
    spec_of = λ name w. (spec_or (lookup name w), w);
    created_of = λ name w. (ok 1, w);
  };
  registry = record {
    has_config = λ w. (err not_found, w);
    resolver = λ w. (ok tt, w);
    get_image = λ name w. (ok name, w);
    pull = λ name resolver w. (ok name, w);
    is_unpacked = λ image snapshotter w. (ok true, w);
    unpack = λ image snapshotter w. (ok tt, w);
  };
  new_container = λ options w. (ok tt, insert options.name options w);
  stat = λ path w. (ok tt, w);
  parse_reference = λ image. ok image;
  parse_quantity = λ quantity. none;
  snapshotter = none;
  hosts_dir = none;
}

abbrev held : Kept → String → Option (ContainerOptions String)
held w name = lookup name w

abbrev AsKept : ContainerOptions String → Spec → Type 0
AsKept o spec = spec.mounts ≡ o.mounts

-- The world after the deployment.
abbrev after : Kept
after = (deploy platform echo "/secrets" false []).1

abbrev fn : Function
fn =
    described "echo" "openfaas-fn" "echo:latest"
      (("tier", "1") ∷ ("com.openfaas.annotations.topic", "a") ∷ [])
      (record {
        env = prepare_env "cat" (("mode", "http") ∷ []);
        mounts = mount_secrets "/secrets" ("token" ∷ []) (get_os_mounts none);
        linux = none;
      })
      1
