-- ===== src/Handlers/Secrets/Paths.antt =====
-- Where the files of secrets stand (secret.go): a created one inside the directory of its namespace,
-- a deleted one anywhere.
use Prim.Native.Char.{Char}
use text.Mathlib.TextLemmas.{cons-append, nil-append, append_assoc as text_assoc}
use mathlib.Core.List.{reverse}
use faasd.Prelude.{
  String, ◌<>◌, ◌==◌, ◌≡◌, refl, sym, ap, ◌∙◌, Bool, true, false, not, ◌||◌, ◌&&◌, Option, none,
  some, List, [], ◌∷◌, if◌then◌else◌, contains_char, contains_text, cut_at, strip_prefix, split,
  split-append, split-whole, ◌==ᶜ◌, path_join, path_join-rooted, is_rooted, clean_parts,
  clean_parts-below, clean_parts-plain, walk, print_path, IsPlain, slash, Bool-cases, String-cases,
  inl, inr, arith, is_some, after_char,
}
use faasd.Effects.{Action, pure, ◌>>=◌}
use faasd.Handlers.Server.{Server, in_world, status_bad_request}
use faasd.Handlers.Namespaces.{NamespaceService}
use faasd.Handlers.Lifecycle.{get_request_namespace}
use faasd.Handlers.Secrets.{
  Secret, Disk, is_blank, is_traversal, validate_secret, get_namespace_secret_mount_path,
  secret_bytes, fail_with, or_internal, write_secret, create_secret, delete_secret,
}

strip_prefix-hit :
    (c d : Char) (s : String)
    → (d ==ᶜ c) ≡ true
    → strip_prefix (String.◌∷◌ c String.[]) (String.◌∷◌ d s) ≡ some s
unfolding strip_prefix
strip_prefix-hit c d s here = let same : (c ==ᶜ d) ≡ true = ground arith in rw same refl

strip_prefix-miss :
    (c d : Char) (s : String)
    → (d ==ᶜ c) ≡ false
    → strip_prefix (String.◌∷◌ c String.[]) (String.◌∷◌ d s) ≡ none
unfolding strip_prefix
strip_prefix-miss c d s other = let apart : (c ==ᶜ d) ≡ false = ground arith in rw apart refl

is_some-after_char :
    (c : Char) (o : Option (String × String)) → is_some (after_char c o) ≡ is_some o
is_some-after_char c none = refl
is_some-after_char c (some (s, t)) = refl

-- strings.Contains of one character.
contains_one :
    (c : Char) (s : String) → contains_text (String.◌∷◌ c String.[]) s ≡ contains_char c s
unfolding contains_text cut_at contains_char
contains_one c String.[] = refl
contains_one c (String.◌∷◌ d s) = elim (Bool-cases (d ==ᶜ c)) [
  | inl here ↦ rw (here, strip_prefix-hit c d s here, cut_at) refl
  | inr other ↦
      rw (other, strip_prefix-miss c d s other, cut_at)
        (is_some-after_char d (cut_at (String.◌∷◌ c String.[]) s) ∙ contains_one c s)
]

accepted : (a t u : Bool) → (not a && not (t || u)) ≡ true → (a ≡ false) × (t ≡ false) × (u ≡ false)
accepted true t u h = cc
accepted false true u h = cc
accepted false false true h = cc
accepted false false false h = (refl, refl, refl)

empty-is_blank : is_blank "" ≡ true
unfolding is_blank
empty-is_blank = refl

above-is_traversal : contains_text ".." ".." ≡ true
unfolding contains_text cut_at strip_prefix
above-is_traversal = refl

-- A name differs from a text that a test tells apart.
told_apart :
    (test : String → Bool) (b : Bool) (s t : String)
    → test s ≡ b
    → test t ≡ not b
    → (s == t) ≡ false
told_apart test true s t here there = elim (String-cases s t) [
  | inl (same, e) ↦ cc (here, there, ap test same)
  | inr (other, e) ↦ e
]
told_apart test false s t here there = elim (String-cases s t) [
  | inl (same, e) ↦ cc (here, there, ap test same)
  | inr (other, e) ↦ e
]

valid-IsPlain :
    (secret : Secret)
    → validate_secret secret ≡ true
    → (secret.name == ".") ≡ false
    → IsPlain secret.name
unfolding validate_secret is_traversal
valid-IsPlain secret valid not_here =
    let (named, whole, low) =
      accepted (is_blank secret.name) (contains_text "/" secret.name)
        (contains_text ".." secret.name) valid in
    record {
      one_part = sym (contains_one slash secret.name) ∙ whole;
      not_empty = told_apart is_blank false secret.name "" named empty-is_blank;
      not_here = not_here;
      not_above = told_apart (contains_text "..") false secret.name ".." low above-is_traversal;
    }

refusal-eq : (a t u : Bool) → (a || (t || u)) ≡ not (not a && not (t || u))
refusal-eq true t u = refl
refusal-eq false true u = refl
refusal-eq false false true = refl
refusal-eq false false false = refl

-- Below an absolute directory a plain name is its file.
path_join-plain :
    (base name : String)
    → is_rooted base ≡ true
    → IsPlain name
    → path_join base name ≡ print_path true (reverse (name ∷ clean_parts base))
path_join-plain base name rooted plain =
    path_join-rooted base name rooted
    ∙ ap (λ (parts : List String). print_path true (reverse parts))
        (clean_parts-plain base name rooted plain)

-- A path that goes up first.
split-up : (name : String) → IsPlain name → split slash ("../" <> name) ≡ ".." ∷ name ∷ []
unfolding split
split-up name plain =
    ap (split slash) (
      text_assoc ".." "/" name
      ∙ ap (λ (s : String). ".." <> s)
          (cons-append slash String.[] name ∙ ap (String.◌∷◌ slash) (nil-append name)))
    ∙ split-append slash ".." name
    ∙ ap (λ (ps : List String). ".." ∷ ps) (split-whole slash name plain.one_part)

walk-up :
    (name last : String) (above : List String)
    → (last == "..") ≡ false
    → IsPlain name
    → walk true (last ∷ above) (".." ∷ name ∷ []) ≡ name ∷ above
unfolding walk
walk-up name last above low plain =
    rw low (rw (plain.not_empty, plain.not_here, plain.not_above) refl)

path_join-up :
    (base name last : String) (above : List String)
    → is_rooted base ≡ true
    → clean_parts base ≡ last ∷ above
    → (last == "..") ≡ false
    → IsPlain name
    → clean_parts (base <> ("/" <> ("../" <> name))) ≡ name ∷ above
path_join-up base name last above rooted parts low plain =
    clean_parts-below base ("../" <> name) rooted
    ∙ ap (walk true (clean_parts base)) (split-up name plain)
    ∙ ap (λ (stack : List String). walk true stack (".." ∷ name ∷ [])) parts
    ∙ walk-up name last above low plain

module _ {W : Type 0} (disk : Disk W) (service : NamespaceService W) (mount_path : String) where
  -- The directory of the secrets of a namespace.
  abbrev pub directory : String → String
  directory namespace = get_namespace_secret_mount_path mount_path (get_request_namespace namespace)

  -- The file of a name in a directory whose parts are given, the innermost first.
  abbrev pub file_at : List String → String
  file_at parts = print_path true (reverse parts)

  -- The directory is made, and the bytes of the secret are written to the path.
  abbrev pub written_to : Secret → String → Action (Server W) (List Secret)
  written_to secret path =
      in_world (disk.mkdir_all (directory secret.namespace))
      >>= or_internal disk service mount_path (
          in_world (disk.write_file path (secret_bytes secret))
          >>= or_internal disk service mount_path (pure []))

  -- Where the directory of its namespace is an absolute path, a request to create a secret whose
  -- name is not a single dot either is refused, which is so exactly if its name is blank or has a
  -- slash or two dots in a row, or makes the directory and writes the bytes of the secret to the
  -- file of that name directly inside the directory.
  pub create_secret-inside :
      (secret : Secret) (s : Server W)
      → is_rooted (directory secret.namespace) ≡ true
      → (secret.name == ".") ≡ false
      → create_secret disk service mount_path (some secret) s ≡ (
          if is_blank secret.name
            || (contains_text "/" secret.name || contains_text ".." secret.name)
          then fail_with disk service mount_path status_bad_request s
          else written_to secret
              (file_at (secret.name ∷ clean_parts (directory secret.namespace)))
              s)
  unfolding create_secret write_secret validate_secret is_traversal
  create_secret-inside secret s rooted not_here = elim (Bool-cases (validate_secret secret)) [
    | inl valid ↦
        rw (refusals, valid)
          (ap (λ (path : String). written_to secret path s)
            (path_join-plain (directory secret.namespace) secret.name rooted
              (valid-IsPlain secret valid not_here)))
    | inr invalid ↦ rw (refusals, invalid) refl
  ]
    where
      refusals :
          (is_blank secret.name
            || (contains_text "/" secret.name || contains_text ".." secret.name))
          ≡ not (validate_secret secret)
      refusals =
          refusal-eq (is_blank secret.name) (contains_text "/" secret.name)
            (contains_text ".." secret.name)

  -- Where the directory of the namespace of the query is an absolute path with a last part, which is
  -- not two dots, a request to delete a secret named by two dots, a slash and a plain name removes the
  -- file of that plain name one directory above.
  pub delete_secret-escapes :
      (query name : String) (secret : Secret) (s : Server W) (last : String) (above : List String)
      → is_rooted (directory query) ≡ true
      → clean_parts (directory query) ≡ last ∷ above
      → (last == "..") ≡ false
      → IsPlain name
      → secret.name ≡ "../" <> name
      → delete_secret disk service mount_path query (some secret) s
        ≡ (in_world (disk.remove (file_at (name ∷ above)))
              >>= or_internal disk service mount_path (pure []))
            s
  unfolding delete_secret
  delete_secret-escapes query name secret s last above rooted parts low plain named =
      ap
        (λ (path : String).
          (in_world (disk.remove path) >>= or_internal disk service mount_path (pure [])) s)
        (ap (path_join (directory query)) named
          ∙ path_join-rooted (directory query) ("../" <> name) rooted
          ∙ ap (λ (ps : List String). file_at ps)
              (path_join-up (directory query) name last above rooted parts low plain))
