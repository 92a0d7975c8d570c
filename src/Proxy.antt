-- ===== src/Proxy.antt =====
-- The reverse proxy of internal/gateway/proxy.go.
-- The network, the URL parser and the JSON codec are arguments. What the standard ReverseProxy changes
-- by itself in a forwarded request (hop-by-hop headers, its own X-Forwarded-For) and the copying of a
-- body that breaks off after its headers are not modelled. A body that cannot be read for the
-- validation counts as one that does not decode.
pub mod Attempt
pub mod Chains
pub mod Caller
pub mod Routing
pub mod Writers
pub mod Virtual
mod Tests
use hive_mind_fusion.Prelude.{Text, Map, Bool, Option, ℕ, List, [], ◌∷◌}

-- A client's request: its header is a map with one value for each name.
pub record Request : Type 0 where
  pub path : Text
  pub header : Map Text
  pub body : Text

pub record Response : Type 0 where
  pub status : ℕ
  pub header : Map Text
  pub body : Text

-- The scheme and host of a parsed URL.
pub record Target : Type 0 where
  pub scheme : Text
  pub host : Text

-- What goes out to a backend.
pub record Outgoing : Type 0 where
  pub target : Target
  pub request : Request

-- The fields that response validation decodes: id, object and the number of choices.
pub record Check : Type 0 where
  pub id : Text
  pub object : Text
  pub choices : ℕ

-- `url.Parse`, the JSON decoder of the validation, and the world at each position of a chain: what
-- `IsHealthy` says when the loop comes there, and what the transport returns for a request then.
pub record World : Type 0 where
  pub parse_url : Text → Option Target
  pub decode_check : Text → Option Check
  pub healthy : ℕ → Text → Bool
  pub round_trip : ℕ → Outgoing → Option Response
