-- ===== src/Handlers/Lifecycle/Replacing.antt =====
-- What the update handler (update.go) does whatever validateSecrets said of the secrets.
use faasd.Prelude.{
  ℕ, ◌==ℕ◌, String, ◌≡◌, refl, ap, sym, ◌∙◌, subst, Bool, true, false, Option, none, some, List,
  inl, inr, Option-cases, Bool-cases,
}
use faasd.Effects.{Outcome, return, panic, blocked, Action, and_then, ◌>>=◌, ◌>>◌, Result, ok, err}
use faasd.Handlers.Server.{
  Server, in_world, http_error, status_bad_request, status_not_found, status_internal_error,
}
use faasd.Handlers.Namespaces.{valid_namespace}
use faasd.Handlers.Lifecycle.{
  FunctionDeployment, Containers, get_request_namespace, report_only, report_or, on_valid, done,
  remove_network, deploy_again, replace, pull_and_replace, on_function, update_handler,
}

module _ {W : Type 0} where
  -- All of a server but its reply.
  abbrev pub unreplied : Server W → Server W
  unreplied s = record s { status = none }

  -- The same outcome, and the same server but for the reply.
  abbrev pub SameWork : {A : Type 0} → Outcome A × Server W → Outcome A × Server W → Type 0
  SameWork r q = (r.0 ≡ q.0) × (unreplied r.1 ≡ unreplied q.1)

  -- Two actions that do the same at servers that differ in their reply alone.
  abbrev Agree : {A : Type 0} → Action (Server W) A → Action (Server W) A → Type 0
  Agree m n = (s t : Server W) → unreplied s ≡ unreplied t → SameWork (m s) (n t)

  -- A reply does no more than that.
  http_error-SameWork : (code : ℕ) (s : Server W) → SameWork (http_error code s) (return tt, s)
  http_error-SameWork code s = elim (Option-cases s.status) [
    | inl fresh ↦ rw fresh (refl, refl)
    | inr (c, replied) ↦ rw replied (refl, refl)
  ]

  Agree-http_error : (code : ℕ) → Agree (http_error code) (http_error code)
  Agree-http_error code s t same =
      let (done, kept) = http_error-SameWork code s in
      let (done', kept') = http_error-SameWork code t in (done ∙ sym done', kept ∙ same ∙ sym kept')

  -- A reply, and no reply.
  Agree-replies : (code : ℕ) → Agree (http_error code) (λ s. (return tt, s))
  Agree-replies code s t same = let (done, kept) = http_error-SameWork code s in (done, kept ∙ same)

  Agree-in_world : {A : Type 0} (m : W → A × W) → Agree (in_world m) (in_world m)
  Agree-in_world m s t same = (
    ap (λ (u : Server W). return (m u.world).0) same,
    ap (λ (u : Server W). record u { world = (m u.world).1 }) same,
  )

  Agree-rest :
      {A B : Type 0} (f g : A → Action (Server W) B)
      → ((a : A) → Agree (f a) (g a))
      → (r q : Outcome A) (s t : Server W) → r ≡ q
      → unreplied s ≡ unreplied t
      → SameWork (and_then r f s) (and_then q g t)
  Agree-rest f g rest r q s t e same =
      subst (λ o. SameWork (and_then r f s) (and_then o g t)) e (go r)
    where
      go : (o : Outcome _) → SameWork (and_then o f s) (and_then o g t)
      go (return a) = rest a s t same
      go panic = (refl, same)
      go blocked = (refl, same)

  Agree-bind :
      {A B : Type 0} (m n : Action (Server W) A) (f g : A → Action (Server W) B)
      → Agree m n
      → ((a : A) → Agree (f a) (g a))
      → Agree (m >>= f) (n >>= g)
  Agree-bind m n f g first rest s t same =
      let (e, same') = first s t same in Agree-rest f g rest (m s).0 (n t).0 (m s).1 (n t).1 e same'

module _ {W : Type 0} (containers : Containers W) where
  abbrev SelfAgree : Action (Server W) (Unit {0}) → Type 0
  SelfAgree m = Agree m m

  Agree-report_only : (code : ℕ) (r : Result (Unit {0})) → SelfAgree (report_only containers code r)
  Agree-report_only code (err e) s t same = Agree-http_error code s t same
  Agree-report_only code (ok a) s t same = (refl, same)

  Agree-report_or :
      (code : ℕ) (rest : Action (Server W) (Unit {0}))
      → SelfAgree rest
      → (r : Result (Unit {0})) → SelfAgree (report_or containers code rest r)
  Agree-report_or code rest kept (err e) s t same = Agree-http_error code s t same
  Agree-report_or code rest kept (ok a) s t same = kept s t same

  Agree-remove_network :
      (namespace name : String) (replicas : ℕ)
      → SelfAgree (remove_network containers namespace name replicas)
  unfolding remove_network
  Agree-remove_network namespace name replicas = elim (Bool-cases (replicas ==ℕ 0)) [
    | inl idle ↦ λ s t same. rw idle (refl, same)
    | inr busy ↦ λ s t same.
        rw busy (refl, (Agree-in_world (containers.delete_network namespace name) s t same).1)
  ]

  Agree-replace :
      (namespace : String) (req : FunctionDeployment) (replicas : ℕ)
      → SelfAgree (replace containers namespace req replicas)
  unfolding replace deploy_again
  Agree-replace namespace req replicas =
      let network = remove_network containers namespace req.service replicas in
      let removed = in_world (containers.remove namespace req.service) in
      let again = deploy_again containers namespace req in
      let on_removed = report_or containers status_internal_error again in
      let deployed = in_world (containers.deploy namespace req false) in
      let on_deployed = report_or containers status_bad_request (done containers) in
      Agree-bind (network >> removed) (network >> removed) on_removed on_removed
        (Agree-bind network network (λ a. removed) (λ a. removed)
          (Agree-remove_network namespace req.service replicas)
          (λ a. Agree-in_world (containers.remove namespace req.service)))
        (Agree-report_or status_internal_error again (
          Agree-bind deployed deployed on_deployed on_deployed
            (Agree-in_world (containers.deploy namespace req false))
            (Agree-report_or status_bad_request (done containers) (λ s t same. (refl, same)))))

  Agree-pull_and_replace :
      (namespace : String) (always_pull : Bool) (req : FunctionDeployment) (replicas : ℕ)
      → SelfAgree (pull_and_replace containers namespace always_pull req replicas)
  unfolding pull_and_replace
  Agree-pull_and_replace namespace always_pull req replicas =
      let pulled = in_world (containers.prepull namespace req always_pull) in
      let reported = report_only containers status_internal_error in
      let rest = replace containers namespace req replicas in
      Agree-bind (pulled >>= reported) (pulled >>= reported) (λ a. rest) (λ a. rest)
        (Agree-bind pulled pulled reported reported
          (Agree-in_world (containers.prepull namespace req always_pull))
          (Agree-report_only status_internal_error))
        (λ a. Agree-replace namespace req replicas)

  -- The same containers, with every secret there.
  abbrev pub lenient : Containers W
  lenient = record containers {
    validate_secrets =
        λ namespace secrets w. (ok tt, (containers.validate_secrets namespace secrets w).1);
  }

  Agree-validated :
      (namespace : String) (secrets : List String)
      → Agree
          (in_world (containers.validate_secrets namespace secrets)
            >>= report_only containers status_bad_request)
          (in_world (lenient.validate_secrets namespace secrets)
            >>= report_only lenient status_bad_request)
  Agree-validated namespace secrets s t same =
      let check = containers.validate_secrets namespace secrets in
      let s' = record s { world = (check s.world).1 } in
      let t' = record t { world = (check t.world).1 } in
      go (check s.world).0 s' t'
        (ap (λ (u : Server W). record u { world = (check u.world).1 }) same)
    where
      go :
          (r : Result (Unit {0})) (u v : Server W)
          → unreplied u ≡ unreplied v
          → SameWork (report_only containers status_bad_request r u) (return tt, v)
      go (err e) u v alike = Agree-replies status_bad_request u v alike
      go (ok a) u v alike = (refl, alike)

  Agree-on_function :
      (namespace : String) (always_pull : Bool) (req : FunctionDeployment) (r : Result ℕ)
      → Agree
          (on_function containers namespace always_pull req r)
          (on_function lenient namespace always_pull req r)
  unfolding on_function
  Agree-on_function namespace always_pull req (err e) = Agree-http_error status_not_found
  Agree-on_function namespace always_pull req (ok replicas) =
      let rest = pull_and_replace containers namespace always_pull req replicas in
      Agree-bind
        (in_world (containers.validate_secrets namespace req.secrets)
          >>= report_only containers status_bad_request)
        (in_world (lenient.validate_secrets namespace req.secrets)
          >>= report_only lenient status_bad_request)
        (λ a. rest) (λ a. rest) (Agree-validated namespace req.secrets)
        (λ a. Agree-pull_and_replace namespace always_pull req replicas)

  Agree-on_valid :
      (m n : Action (Server W) (Unit {0}))
      → Agree m n
      → (r : Result Bool) → Agree (on_valid containers m r) (on_valid lenient n r)
  Agree-on_valid m n alike (err e) = Agree-http_error status_bad_request
  Agree-on_valid m n alike (ok true) = alike
  Agree-on_valid m n alike (ok false) = Agree-http_error status_bad_request

-- Whatever the update handler is sent, it does the same to the containers, the images, the network,
-- the catalog and its goroutines whether validateSecrets refuses the secrets or accepts them, and
-- ends in the same way: only the reply can differ. So an update with invalid secrets replaces the
-- container as one with valid secrets does.
pub update-ignores_secrets :
    {W : Type 0} (containers : Containers W) (always_pull : Bool) (body : Option FunctionDeployment)
    (s : Server W)
    → SameWork
        (update_handler containers always_pull body s)
        (update_handler (lenient containers) always_pull body s)
unfolding update_handler
update-ignores_secrets containers always_pull none s = Agree-http_error status_bad_request s s refl
update-ignores_secrets containers always_pull (some req) s =
    let namespace = get_request_namespace req.namespace in
    let valid = in_world (valid_namespace containers.namespaces namespace) in
    let found = in_world (containers.get_function namespace req.service) in
    let strict = found >>= on_function containers namespace always_pull req in
    let free = found >>= on_function (lenient containers) namespace always_pull req in
    Agree-bind valid valid (on_valid containers strict) (on_valid (lenient containers) free)
      (Agree-in_world (valid_namespace containers.namespaces namespace))
      (Agree-on_valid containers strict free (
        Agree-bind found found (on_function containers namespace always_pull req)
          (on_function (lenient containers) namespace always_pull req)
          (Agree-in_world (containers.get_function namespace req.service))
          (Agree-on_function containers namespace always_pull req)))
      s s refl
