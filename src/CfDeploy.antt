-- ===== src/CfDeploy.antt =====
-- internal/cfdeploy: the Cloudflare API as the package sees it through `doRequest` and the decoding of
-- the answer. The account behind the API is a state `S` of which nothing is known; a GET reads it, and
-- a call that fails may have changed it.
pub mod Tunnel
pub mod Ensure
pub mod Client
pub mod Http
mod Tests
mod ClientTests
mod HttpTests
use xray_vless_ws_go.Base.{Bool, List, Bytes, Result}

pub data DeployError : Type 0 where
  request_failed not_parsed : DeployError
  empty_token no_accounts no_marker : DeployError
  no_zone : Bytes → DeployError

-- cfTunnel, kvNamespace (whose title is the name), cfZone and accountInfo.
pub record Named : Type 0 where
  pub id : Bytes
  pub name : Bytes

-- dnsRecord of type CNAME.
pub record DnsRecord : Type 0 where
  pub id : Bytes
  pub name : Bytes
  pub content : Bytes
  pub proxied : Bool

-- The calls, each with the account or zone that its path names.
pub record Cloudflare (S : Type 0) : Type 0 where
  pub list_accounts : S → Result DeployError (List Named)
  pub list_namespaces : S → Bytes → Result DeployError (List Named)
  pub create_namespace : S → Bytes → Bytes → S × Result DeployError Named
  pub upload_script : S → Bytes → Bytes → Bytes → Bytes → S × Result DeployError (Unit {0})
  pub attach_domain : S → Bytes → Bytes → Bytes → Bytes → S × Result DeployError (Unit {0})
  pub list_tunnels : S → Bytes → Bytes → Result DeployError (List Named)
  pub create_tunnel : S → Bytes → Bytes → S × Result DeployError Named
  pub tunnel_token : S → Bytes → Bytes → Result DeployError Bytes
  pub list_zones : S → Bytes → Result DeployError (List Named)
  pub list_records : S → Bytes → Bytes → Result DeployError (List DnsRecord)
  pub create_record : S → Bytes → DnsRecord → S × Result DeployError (Unit {0})
  pub update_record : S → Bytes → Bytes → DnsRecord → S × Result DeployError (Unit {0})
