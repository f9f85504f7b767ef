-- ===== src/Runtime/Service/Images.antt =====
-- The images of containers: PrepareImage and pullImage of pkg/service/service.go. The registry's
-- resolver, made of Docker's configuration, is a parameter.
use faasd.Prelude.{String, Bool, true, false, Option, none, some}
use faasd.Effects.{Result, ok, err, not_found, failed}
use faasd.Effects.Calls.{Call, succeed, fail, ◌>>=◌, ◌>>◌, attempt}

-- Operations of the client and of an image; `resolver` is what config.Load and getResolver make,
-- `has_config` the Stat of the configuration file.
pub record Registry (W I R : Type 0) : Type 0 where
  pub has_config : Call W (Unit {0})
  pub resolver : Call W R
  pub get_image : String → Call W I
  pub pull : String → Option R → Call W I
  pub is_unpacked : I → String → Call W Bool
  pub unpack : I → String → Call W (Unit {0})

module _ {W I R : Type 0} (registry : Registry W I R) where
  -- A file that is not there is no error; a null resolver is `none`.
  abbrev pub on_config : Result (Unit {0}) → Call W (Option R)
  on_config (ok a) = registry.resolver >>= (λ r. succeed (some r))
  on_config (err not_found) = succeed none
  on_config (err failed) = fail failed

  unfoldable pub load_resolver : Call W (Option R)
  load_resolver = attempt registry.has_config on_config

  abbrev pub on_pulled : Result I → Call W I
  on_pulled (ok img) = succeed img
  on_pulled (err e) = fail failed

  unfoldable pub pull_image : Option R → String → Call W I
  pull_image resolver image_name = attempt (registry.pull image_name resolver) on_pulled

  -- A local image, or a pulled one where it is not found.
  abbrev pub on_image : Option R → String → Result I → Call W I
  on_image resolver image_name (ok img) = succeed img
  on_image resolver image_name (err not_found) = pull_image resolver image_name
  on_image resolver image_name (err failed) = fail failed

  unfoldable pub find_image : String → Bool → Option R → Call W I
  unfolding pull_image
  find_image image_name true resolver = pull_image resolver image_name
  find_image image_name false resolver =
      attempt (registry.get_image image_name) (on_image resolver image_name)

  abbrev pub unpack_unless : I → String → Bool → Call W I
  unpack_unless image snapshotter true = succeed image
  unpack_unless image snapshotter false = registry.unpack image snapshotter >> succeed image

  unfoldable pub unpacked : String → I → Call W I
  unpacked snapshotter image =
      registry.is_unpacked image snapshotter >>= unpack_unless image snapshotter

  unfoldable pub prepare_image : String → String → Bool → Call W I
  unfolding load_resolver find_image unpacked
  prepare_image image_name snapshotter pull_always =
      load_resolver >>= find_image image_name pull_always >>= unpacked snapshotter
