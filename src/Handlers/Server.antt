-- ===== src/Handlers/Server.antt =====
-- The state behind the HTTP handlers: the catalog, the reply under way, the goroutines that were
-- started, and a world in which all else happens (containerd, the network, the disk, other nodes).
use faasd.Prelude.{ℕ, String, Option, none, some, List, [], ◌∷◌, ◌++◌}
use faasd.Effects.{return, Action}
use faasd.Catalog.Types.{Catalog}

-- `reported` holds the functions for which a goroutine waits, to report them when they are ready;
-- `explored` the nodes at which a goroutine tries a first instance of a function.
pub record Server (W : Type 0) : Type 0 where
  pub world : W
  pub catalog : Catalog
  pub status : Option ℕ
  pub reported : List String
  pub explored : List (String × String)

module _ {W : Type 0} where
  module _ {A : Type 0} where
    abbrev pub in_world : (W → A × W) → Action (Server W) A
    in_world m s = let (a, w) = m s.world in (return a, record s { world = w })

    abbrev pub in_catalog : Action Catalog A → Action (Server W) A
    in_catalog m s = let (a, c) = m s.catalog in (a, record s { catalog = c })

  -- w.WriteHeader(code): only the first call counts.
  abbrev pub write_header : ℕ → Action (Server W) (Unit {0})
  write_header code s = elim s.status [
    | none ↦ (return tt, record s { status = some code })
    | some _ ↦ (return tt, s)
  ]

  abbrev pub http_error : ℕ → Action (Server W) (Unit {0})
  http_error = write_header

  abbrev pub spawn_report : String → Action (Server W) (Unit {0})
  spawn_report name s = (return tt, record s { reported = s.reported ++ name ∷ [] })

  abbrev pub spawn_explore : String → String → Action (Server W) (Unit {0})
  spawn_explore p2p_id name s =
      (return tt, record s { explored = s.explored ++ (p2p_id, name) ∷ [] })

abbrev pub status_ok : ℕ
status_ok = 200

abbrev pub status_created : ℕ
status_created = 201

abbrev pub status_accepted : ℕ
status_accepted = 202

abbrev pub status_no_content : ℕ
status_no_content = 204

abbrev pub status_bad_request : ℕ
status_bad_request = 400

abbrev pub status_not_found : ℕ
status_not_found = 404

abbrev pub status_method_not_allowed : ℕ
status_method_not_allowed = 405

abbrev pub status_conflict : ℕ
status_conflict = 409

abbrev pub status_internal_error : ℕ
status_internal_error = 500

abbrev pub status_service_unavailable : ℕ
status_service_unavailable = 503
