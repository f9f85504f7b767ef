-- ===== src/Runtime/Network.antt =====
-- The addresses of containers: pkg/cninetwork/cni_network.go.
pub mod Quiet
use faasd.Prelude.{
  ℕ, String, ◌<>◌, ◌==◌, Bool, true, false, ◌&&◌, Option, none, some, List, [], ◌∷◌, if◌then◌else◌,
  decimal, contains_text, path_join, ◌==ᶜ◌,
}
use faasd.Effects.{Result, ok, err, failed}
use faasd.Effects.Calls.{Call, succeed, fail, ◌>>=◌, ◌>>◌, attempt}
use faasd.Runtime.{Task, Containerd, Cni, Files, Host}

-- CNIDataDir and defaultNetworkName
abbrev pub cni_dir : String
cni_dir = path_join "/var/run/cni" "openfaas-cni-bridge"

abbrev pub default_if_prefix : String
default_if_prefix = "eth"

unfoldable pub net_id : Task → String
net_id task = task.id <> ("-" <> decimal task.pid)

unfoldable pub net_namespace : Task → String
net_namespace task = "/proc/" <> (decimal task.pid <> "/ns/net")

-- reader.ReadString('\n'): a line with its end, and what is left.
unfoldable pub read_string : String → String × String
read_string String.[] = (String.[], String.[])
read_string (String.◌∷◌ c s) =
    let (line, rest) = read_string s in
    if c ==ᶜ "\n" then (String.◌∷◌ c String.[], s) else (String.◌∷◌ c line, rest)

-- What isCNIResultForPID says of the text of a file.
unfoldable pub is_result_for : String → ℕ → String → Bool
unfolding read_string contains_text
is_result_for container pid text =
    let (process_line, rest) = read_string text in
    contains_text (container <> ("-" <> decimal pid)) process_line
    && contains_text default_if_prefix (read_string rest).0

module _ {W : Type 0} (host : Host W) where
  unfoldable pub is_cni_result_for_pid : String → String → ℕ → Call W Bool
  unfolding is_result_for
  is_cni_result_for_pid file_name container pid =
      host.files.open_file file_name >>= (λ text. succeed (is_result_for container pid text))

  abbrev pub on_found : String → Call W String → Bool → Call W String
  on_found file_name rest true = succeed file_name
  on_found file_name rest false = rest

  -- Each file is named by an address.
  unfoldable pub search_files : String → ℕ → List String → Call W String
  unfolding is_cni_result_for_pid
  search_files container pid [] = fail failed
  search_files container pid (file_name ∷ files) =
      is_cni_result_for_pid (path_join cni_dir file_name) container pid
      >>= on_found file_name (search_files container pid files)

  unfoldable pub get_ip_address : String → ℕ → Call W String
  unfolding search_files
  get_ip_address container pid = host.files.read_dir cni_dir >>= search_files container pid

  unfoldable pub create_cni_network : Task → Call W (Unit {0})
  unfolding net_id net_namespace
  create_cni_network task = host.cni.setup (net_id task) (net_namespace task)

  -- A container without a task has no network.
  abbrev pub on_task : Result Task → Call W (Unit {0})
  on_task (err e) = succeed tt
  on_task (ok task) = host.cni.remove (net_id task) (net_namespace task)

  unfoldable pub delete_cni_network : String → Call W (Unit {0})
  unfolding net_id net_namespace
  delete_cni_network name =
      host.client.load_container name >> attempt (host.client.task name) on_task
