-- ===== src/Handlers/Secrets.antt =====
-- The secrets of functions as files: pkg/provider/handlers/secret.go, and the paths of utils.go. The
-- disk is a parameter; a body that is missing or no JSON is `none`.
pub mod Paths
use Prim.Native.Char.{Char, code}
use faasd.Prelude.{
  ℕ, String, ◌==◌, ◌==ℕ◌, ltb, Bool, true, false, ◌&&◌, ◌||◌, not, Option, none, some, List, [],
  ◌∷◌, if◌then◌else◌, contains_text, path_join,
}
use faasd.Effects.{
  Outcome, return, Action, pure, ◌>>=◌, ◌>>◌, Result, ok, err, Error, not_found, failed,
}
use faasd.Effects.Calls.{Call}
use faasd.Handlers.Server.{
  Server, in_world, write_header, http_error, status_ok, status_bad_request, status_internal_error,
}
use faasd.Handlers.Namespaces.{NamespaceService, Method, valid_namespace}
use faasd.Handlers.Lifecycle.{get_request_namespace}

-- types.Secret; a value of bytes is a text.
pub record Secret : Type 0 where
  pub name : String
  pub namespace : String
  pub value : String
  pub raw_value : String

-- os.MkdirAll, ioutil.WriteFile, os.Remove and os.ReadDir
pub record Disk (W : Type 0) : Type 0 where
  pub mkdir_all : String → Call W (Unit {0})
  pub write_file : String → String → Call W (Unit {0})
  pub remove : String → Call W (Unit {0})
  pub read_dir : String → Call W (List String)

-- The white space of unicode.IsSpace.
unfoldable pub is_space : Char → Bool
is_space c =
    let n = code c in
    (ltb 8 n && ltb n 14)
    || n ==ℕ 32
    || n ==ℕ 133
    || n ==ℕ 160
    || n ==ℕ 5760
    || (ltb 8191 n && ltb n 8203)
    || n ==ℕ 8232
    || n ==ℕ 8233
    || n ==ℕ 8239
    || n ==ℕ 8287
    || n ==ℕ 12288

-- strings.TrimSpace leaves nothing.
unfoldable pub is_blank : String → Bool
unfolding is_space
is_blank String.[] = true
is_blank (String.◌∷◌ c s) = is_space c && is_blank s

unfoldable pub is_traversal : String → Bool
unfolding contains_text
is_traversal name = contains_text "/" name || contains_text ".." name

-- Whether there is no error.
unfoldable pub validate_secret : Secret → Bool
unfolding is_blank is_traversal
validate_secret secret = not (is_blank secret.name) && not (is_traversal secret.name)

unfoldable pub get_namespace_secret_mount_path : String → String → String
unfolding path_join
get_namespace_secret_mount_path user_secret_path namespace = path_join user_secret_path namespace

abbrev pub secret_bytes : Secret → String
secret_bytes secret = if secret.raw_value == "" then secret.value else secret.raw_value

module _ {W : Type 0} (disk : Disk W) (service : NamespaceService W) (mount_path : String) where
  -- The names that a listing replies with, each in the namespace.
  abbrev Handling : Type 0
  Handling = Action (Server W) (List Secret)

  abbrev pub fail_with : ℕ → Handling
  fail_with code = http_error code >> pure []

  abbrev pub or_internal : Handling → Result (Unit {0}) → Handling
  or_internal rest (ok a) = rest
  or_internal rest (err e) = fail_with status_internal_error

  abbrev pub secrets_in : String → List String → List Secret
  secrets_in namespace [] = []
  secrets_in namespace (name ∷ files) =
      record { name = name; namespace = namespace; value = ""; raw_value = "" }
      ∷ secrets_in namespace files

  abbrev pub reply : List Secret → Handling
  reply secrets = write_header status_ok >> pure secrets

  -- A directory that is not there holds no secret.
  abbrev pub on_files : String → Result (List String) → Handling
  on_files namespace (ok files) = reply (secrets_in namespace files)
  on_files namespace (err not_found) = reply []
  on_files namespace (err failed) = fail_with status_internal_error

  abbrev pub on_valid : String → Result Bool → Handling
  on_valid namespace (ok true) =
      in_world (disk.read_dir (get_namespace_secret_mount_path mount_path namespace))
      >>= on_files namespace
  on_valid namespace (ok false) = fail_with status_bad_request
  on_valid namespace (err e) = fail_with status_bad_request

  -- The argument is the namespace of the query, empty if there is none.
  unfoldable pub list_secrets : String → Handling
  unfolding get_namespace_secret_mount_path
  list_secrets query =
      in_world (valid_namespace service (get_request_namespace query))
      >>= on_valid (get_request_namespace query)

  unfoldable pub write_secret : Secret → String → Handling
  write_secret secret directory =
      in_world (disk.mkdir_all directory)
      >>= or_internal (
          in_world (disk.write_file (path_join directory secret.name) (secret_bytes secret))
          >>= or_internal (pure []))

  unfoldable pub create_secret : Option Secret → Handling
  unfolding write_secret validate_secret get_namespace_secret_mount_path
  create_secret none = fail_with status_internal_error
  create_secret (some secret) =
      if validate_secret secret
      then write_secret secret
          (get_namespace_secret_mount_path mount_path (get_request_namespace secret.namespace))
      else fail_with status_bad_request

  -- The namespace is that of the query; the name is taken as it is.
  unfoldable pub delete_secret : String → Option Secret → Handling
  unfolding get_namespace_secret_mount_path
  delete_secret query none = fail_with status_internal_error
  delete_secret query (some secret) =
      in_world (
        disk.remove (
          path_join (get_namespace_secret_mount_path mount_path (get_request_namespace query))
            secret.name))
      >>= or_internal (pure [])

  -- MakeSecretHandler
  unfoldable pub secret_handler : Method → String → Option Secret → Handling
  unfolding list_secrets create_secret delete_secret
  secret_handler Method.get query body = list_secrets query
  secret_handler Method.post query body = create_secret body
  secret_handler Method.put query body = create_secret body
  secret_handler Method.delete query body = delete_secret query body
  secret_handler Method.other query body = write_header status_bad_request >> pure []
