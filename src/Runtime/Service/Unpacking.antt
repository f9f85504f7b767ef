-- ===== src/Runtime/Service/Unpacking.antt =====
-- What PrepareImage of pkg/service/service.go returns.
use faasd.Prelude.{String, ◌≡◌, sym, ap, ◌∙◌, subst, Bool, true, false}
use faasd.Effects.{Result, ok}
use faasd.Effects.Calls.{succeed, ◌>>=◌}
use faasd.Effects.Frame.{bind-eq-ok}
use faasd.Runtime.Service.Images.{
  Registry, load_resolver, find_image, unpack_unless, unpacked, prepare_image,
}

-- What the client documents of images: an image that it says is unpacked is, and so is one that it
-- unpacked.
pub record IsRegistry {W I R : Type 0} (registry : Registry W I R) (ready : W → I → String → Bool)
    : Type 0 where
  pub told :
      (i : I) (s : String) (w : W) (b : Bool)
      → (registry.is_unpacked i s w).0 ≡ ok b
      → ready (registry.is_unpacked i s w).1 i s ≡ b
  pub unpacks :
      (i : I) (s : String) (w : W)
      → (registry.unpack i s w).0 ≡ ok tt
      → ready (registry.unpack i s w).1 i s ≡ true

module _ {W I R : Type 0} (registry : Registry W I R) (ready : W → I → String → Bool)
    (laws : IsRegistry registry ready) where
  -- A result with the image ready in its world.
  abbrev pub Ready : I → String → Result I × W → Type 0
  Ready image snapshotter r = ready r.1 image snapshotter ≡ true

  unless-Ready :
      (i image : I) (snapshotter : String) (w : W) (b : Bool)
      → ready w i snapshotter ≡ b
      → (unpack_unless registry i snapshotter b w).0 ≡ ok image
      → Ready image snapshotter (unpack_unless registry i snapshotter b w)
  unless-Ready i image snapshotter w true told done =
      let same : i ≡ image = cc in subst (λ (k : I). ready w k snapshotter ≡ true) same told
  unless-Ready i image snapshotter w false told done =
      let (a, first, rest) =
        bind-eq-ok (registry.unpack i snapshotter) (λ ignored. succeed i) w image done in
      let given = ap (λ (r : Result I × W). r.0) (sym rest) ∙ done in
      let same : i ≡ image = cc in
      subst (Ready image snapshotter) (sym rest) (
        subst (λ (k : I). ready (registry.unpack i snapshotter w).1 k snapshotter ≡ true) same
          (laws.unpacks i snapshotter w first))

  unpacked-Ready :
      (i image : I) (snapshotter : String) (w : W)
      → (unpacked registry snapshotter i w).0 ≡ ok image
      → Ready image snapshotter (unpacked registry snapshotter i w)
  unfolding unpacked
  unpacked-Ready i image snapshotter w done =
      let (b, told, rest) =
        bind-eq-ok (registry.is_unpacked i snapshotter) (unpack_unless registry i snapshotter) w
          image done in
      subst (Ready image snapshotter) (sym rest) (
        unless-Ready i image snapshotter (registry.is_unpacked i snapshotter w).1 b
          (laws.told i snapshotter w b told) (ap (λ (r : Result I × W). r.0) (sym rest) ∙ done))

  -- An image that PrepareImage returns, pulled or found, is unpacked for the snapshotter, on a
  -- registry that tells so of an image only where it is, and that unpacks what it says to unpack.
  pub prepare_image-Ready :
      (image_name snapshotter : String) (pull_always : Bool) (image : I) (w : W)
      → (prepare_image registry image_name snapshotter pull_always w).0 ≡ ok image
      → Ready image snapshotter (prepare_image registry image_name snapshotter pull_always w)
  unfolding prepare_image
  prepare_image-Ready image_name snapshotter pull_always image w done =
      let find = load_resolver registry >>= find_image registry image_name pull_always in
      let (i, found, rest) = bind-eq-ok find (unpacked registry snapshotter) w image done in
      subst (Ready image snapshotter) (sym rest) (
        unpacked-Ready i image snapshotter (find w).1
          (ap (λ (r : Result I × W). r.0) (sym rest) ∙ done))
