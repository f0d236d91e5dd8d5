-- ===== src/Api.antt =====
-- internal/api: the gRPC servers over the supervisor.
pub mod Tunnels
pub mod Keys
pub mod Streams
pub mod Peers
use tunneld.Errors.{Err}

pub data Code : Type 0 where
  invalid_argument internal not_found : Code

-- What a call returns: its response, or status.Error.
pub data Reply {ℓ} (A : Type ℓ) : Type ℓ where
  response : A → Reply A
  failure : Code → Err → Reply A
