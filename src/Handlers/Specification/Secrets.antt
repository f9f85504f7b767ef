-- ===== src/Handlers/Specification/Secrets.antt =====
-- The secrets of a function: their mounts (deploy of deploy.go) and their reading
-- (readSecretsFromMounts of functions.go).
use faasd.Prelude.{
  String, ◌<>◌, ◌≡◌, refl, sym, ap, ◌∙◌, true, false, Option, none, some, List, [], ◌∷◌, ◌++◌, All,
  contains_char, ◌==ᶜ◌, cut_at, strip_prefix, strip_prefix-append, path_join, path_join-rooted,
  clean_parts, clean_parts-plain, print_path, join_with, IsPlain, arith, Bool-cases, inl, inr,
}
use Prim.Native.Char.{Char}
use mathlib.Core.List.{append_assoc, append-nil, reverse}
use text.Mathlib.TextLemmas.{cons-append, append_assoc as text_assoc}
use faasd.Handlers.Specification.{
  Mount, bind_mount, get_os_mounts, mount_secrets, secret_of, second_piece, up_to, read_secrets,
  read_secrets_from_mounts,
}

abbrev secrets_dir : String
secrets_dir = "/var/openfaas/secrets/"

cut_at_self :
    (c : Char) (p s : String) → cut_at (String.◌∷◌ c p) (String.◌∷◌ c p <> s) ≡ some (String.[], s)
unfolding cut_at
cut_at_self c p s =
    let here =
      ap (strip_prefix (String.◌∷◌ c p)) (sym (cons-append c p s))
      ∙ strip_prefix-append (String.◌∷◌ c p) s in
    rw (cons-append c p s) (rw (here, cut_at) refl)

strip_prefix-other :
    (c d : Char) (p s : String)
    → (d ==ᶜ c) ≡ false
    → strip_prefix (String.◌∷◌ c p) (String.◌∷◌ d s) ≡ none
unfolding strip_prefix
strip_prefix-other c d p s other = let apart : (c ==ᶜ d) ≡ false = ground arith in rw apart refl

cut_at-absent :
    (c : Char) (p s : String) → contains_char c s ≡ false → cut_at (String.◌∷◌ c p) s ≡ none
unfolding cut_at contains_char
cut_at-absent c p String.[] absent = refl
cut_at-absent c p (String.◌∷◌ d s) absent = elim (Bool-cases (d ==ᶜ c)) [
  | inl here ↦ cc (rw here at absent)
  | inr other ↦
      rw (strip_prefix-other c d p s other, cut_at-absent c p s (rw other at absent), cut_at) refl
]

mounted_at :
    (secret : String)
    → IsPlain secret
    → path_join "/var/openfaas/secrets" secret ≡ secrets_dir <> secret
unfolding clean_parts join_with
mounted_at secret plain =
    path_join-rooted "/var/openfaas/secrets" secret refl
    ∙ ap (λ (parts : List String). print_path true (reverse parts))
        (clean_parts-plain "/var/openfaas/secrets" secret refl plain)
    ∙ sym (
        text_assoc "/var/openfaas/secrets" "/" secret
        ∙ text_assoc "/var/openfaas/" "secrets" ("/" <> secret)
        ∙ text_assoc "/var/openfaas" "/" ("secrets" <> ("/" <> secret))
        ∙ text_assoc "/var/" "openfaas" ("/" <> ("secrets" <> ("/" <> secret)))
        ∙ text_assoc "/var" "/" ("openfaas" <> ("/" <> ("secrets" <> ("/" <> secret))))
        ∙ text_assoc "/" "var" ("/" <> ("openfaas" <> ("/" <> ("secrets" <> ("/" <> secret))))))

secret_of-mounted :
    (secret : String)
    → IsPlain secret
    → secret_of (path_join "/var/openfaas/secrets" secret) ≡ some secret
secret_of-mounted secret plain = ap secret_of (mounted_at secret plain) ∙ found
  where
    there : cut_at secrets_dir (secrets_dir <> secret) ≡ some ("", secret)
    there = cut_at_self "/" "var/openfaas/secrets/" secret

    alone : cut_at secrets_dir secret ≡ none
    alone = cut_at-absent "/" "var/openfaas/secrets/" secret plain.one_part

    found : secret_of (secrets_dir <> secret) ≡ some secret
    found =
        ap second_piece there ∙ ap (λ (o : Option (String × String)). some (up_to secret o)) alone

abbrev secret_mounts : String → List String → List Mount
secret_mounts path [] = []
secret_mounts path (secret ∷ secrets) =
    bind_mount (path_join "/var/openfaas/secrets" secret) (path_join path secret)
    ∷ secret_mounts path secrets

mount_secrets-eq :
    (path : String) (secrets : List String) (mounts : List Mount)
    → mount_secrets path secrets mounts ≡ mounts ++ secret_mounts path secrets
unfolding mount_secrets
mount_secrets-eq path [] mounts = sym (append-nil mounts)
mount_secrets-eq path (secret ∷ secrets) mounts =
    mount_secrets-eq path secrets _ ∙ append_assoc mounts _ _

pub read_secrets-append :
    (xs ys : List Mount) (found : List String)
    → read_secrets (xs ++ ys) found ≡ read_secrets ys (read_secrets xs found)
unfolding read_secrets
read_secrets-append [] ys found = refl
read_secrets-append (x ∷ xs) ys found = read_secrets-append xs ys _

read-secret_mounts :
    (path : String) (secrets found : List String)
    → All IsPlain secrets
    → read_secrets (secret_mounts path secrets) found ≡ found ++ secrets
unfolding read_secrets
read-secret_mounts path [] found plain = sym (append-nil found)
read-secret_mounts path (secret ∷ secrets) found (plain, rest) =
    rw (secret_of-mounted secret plain, read_secrets)
      (read-secret_mounts path secrets (found ++ secret ∷ []) rest
        ∙ append_assoc found (secret ∷ []) secrets)

os_mounts-read : (setting : Option String) → read_secrets (get_os_mounts setting) [] ≡ []
unfolding read_secrets get_os_mounts cut_at strip_prefix
os_mounts-read setting = refl

-- Secrets whose names are each one part of a path are read back from the mounts that deploy makes,
-- in their order, and nothing else is: the mounts of the hosts files hold no secret.
pub mount_secrets-round_trip :
    (secret_mount_path : String) (secrets : List String) (setting : Option String)
    → All IsPlain secrets
    → read_secrets_from_mounts (mount_secrets secret_mount_path secrets (get_os_mounts setting))
      ≡ secrets
unfolding read_secrets_from_mounts
mount_secrets-round_trip secret_mount_path secrets setting plain =
    ap (λ (mounts : List Mount). read_secrets mounts [])
      (mount_secrets-eq secret_mount_path secrets (get_os_mounts setting))
    ∙ read_secrets-append (get_os_mounts setting) (secret_mounts secret_mount_path secrets) []
    ∙ ap (read_secrets (secret_mounts secret_mount_path secrets)) (os_mounts-read setting)
    ∙ read-secret_mounts secret_mount_path secrets [] plain
