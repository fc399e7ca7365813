-- ===== src/Dns/Messages.antt =====
-- The protobuf messages of Lars/base/proto/lars.proto that the DNS service sends.
pub mod Answers
use lars_system.Base.{ℕ, List, [], ◌∷◌, key_high, key_low}

-- `message HostInfo`.
pub record HostAddr : Type 0 where
  pub ip : ℕ
  pub port : ℕ

pub record GetRouteResponse : Type 0 where
  pub modid : ℕ
  pub cmdid : ℕ
  pub host : List HostAddr

-- The loop that unpacks the hosts of a set into the response.
unfoldable pub add_hosts : List ℕ → List HostAddr
unfolding key_high key_low
add_hosts [] = []
add_hosts (ip_port ∷ hosts) =
    record { ip = key_high ip_port; port = key_low ip_port } ∷ add_hosts hosts
