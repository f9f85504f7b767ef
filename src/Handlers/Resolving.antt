-- ===== src/Handlers/Resolving.antt =====
-- The addresses of functions for the proxy: pkg/provider/handlers/invoke_resolver.go. Parsing of
-- URLs is a parameter.
use faasd.Prelude.{
  ℕ, String, ◌<>◌, Option, none, some, Map, lookup, if◌then◌else◌, contains_text, trim_suffix,
  after_last, decimal,
}
use faasd.Effects.{Result, ok, err, failed}
use faasd.Effects.Calls.{Call, fail, attempt}
use faasd.Handlers.Namespaces.{default_function_namespace}
use faasd.Handlers.Functions.{Engine, Function, get_function}

abbrev pub watchdog_port : ℕ
watchdog_port = 8080

-- The text behind the last dot, if there is one.
unfoldable pub get_namespace_or_default : String → String → String
unfolding contains_text after_last
get_namespace_or_default name default_namespace =
    if contains_text "." name then after_last "." name else default_namespace

unfoldable pub actual_function_name : String → String
unfolding get_namespace_or_default trim_suffix
actual_function_name function_name =
    if contains_text "." function_name
    then trim_suffix ("." <> get_namespace_or_default function_name default_function_namespace)
        function_name
    else function_name

module _ {W U : Type 0} (engine : String → Engine W) (parse_url : String → Result U)
    (cache : Map String) where
  abbrev pub url_at : String → Call W U
  url_at ip w = (parse_url ("http://" <> (ip <> (":" <> decimal watchdog_port))), w)

  abbrev pub on_function : Result Function → Call W U
  on_function (ok fn) = url_at fn.ip
  on_function (err e) = fail failed

  unfoldable pub resolve_cached : String → String → Option String → Call W U
  unfolding get_function
  resolve_cached name namespace (some ip) = url_at ip
  resolve_cached name namespace none =
      attempt (get_function (engine namespace) name namespace) on_function

  unfoldable pub resolve_url : String → Call W U
  unfolding resolve_cached actual_function_name
  resolve_url function_name =
      resolve_cached (actual_function_name function_name)
        (get_namespace_or_default function_name default_function_namespace)
        (lookup (actual_function_name function_name) cache)
