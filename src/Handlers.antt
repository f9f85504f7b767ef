-- ===== src/Handlers.antt =====
-- pkg/provider/handlers: the HTTP handlers of the provider.
pub mod Server
pub mod Keeps
pub mod Namespaces
pub mod Scale
pub mod Lifecycle
pub mod Trigger
pub mod Specification
pub mod Functions
pub mod Deploying
pub mod Secrets
pub mod Reading
pub mod Resolving
pub mod Sessions
