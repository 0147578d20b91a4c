-- ===== src/Api.antt =====
-- api/v1alpha1: the resource types, one child for each `*_types.go`, and the types of the Kubernetes
-- API that they use.
mod Meta
mod AlertTypes
mod AlertGroupTypes
mod AiProviderTypes
mod MonitorPodTypes
mod AlertRecordTypes
mod Equality
unfoldable pub use Equality.*
pub use Meta.*
pub use AlertTypes.*
pub use AlertGroupTypes.*
pub use AiProviderTypes.*
pub use MonitorPodTypes.*
pub use AlertRecordTypes.*
