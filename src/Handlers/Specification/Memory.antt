-- ===== src/Handlers/Specification/Memory.antt =====
-- The memory limit of a container (withMemory of deploy.go, readMemoryLimitFromSpec of functions.go).
use faasd.Prelude.{String, ◌==◌, ◌≡◌, refl, Option, some, get_or, false}
use faasd.Catalog.Types.{FunctionResources}
use faasd.Handlers.Specification.{ℤ, pos, Spec, memory_of, with_memory, read_memory_limit_from_spec}

-- The limit that a deployment with a memory limit writes is the parsed one, or 0 where it does not
-- parse, whatever stood in the specification; the variables and the mounts are kept.
pub read-with_memory :
    (parse_quantity : String → Option ℤ) (limits : FunctionResources) (s : Spec)
    → (limits.memory == "") ≡ false
    → (read_memory_limit_from_spec (with_memory (memory_of parse_quantity (some limits)) s)
        ≡ get_or (pos 0) (parse_quantity limits.memory))
      × ((with_memory (memory_of parse_quantity (some limits)) s).env ≡ s.env)
      × ((with_memory (memory_of parse_quantity (some limits)) s).mounts ≡ s.mounts)
unfolding read_memory_limit_from_spec with_memory memory_of
read-with_memory parse_quantity limits s given = rw given (refl, refl, refl)
