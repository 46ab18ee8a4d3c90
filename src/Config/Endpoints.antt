-- ===== src/Config/Endpoints.antt =====
-- The checks of `Config::validate` in src/config.rs on the endpoints, the connections and the addresses.
-- What the code takes from its libraries is the argument `Parsers`: reading of an address or of a URL, and
-- lower case.
use lp_maker.Base.{
  ◌*◌, min, Bool, ◌&&◌, Option, none, some, List, [], ◌∷◌, String, Result, ok, ◌>>=◌, ◌>>◌, ensure,
  context, ltb, leb, any, is_some, u64_max,
}
use lp_maker.Float.{F64}
use text.Mathlib.Text.{◌==◌ as str_eq}
use lp_maker.Config.State.{Config, WebSocketConfig}

pub record Url : Type 0 where
  pub scheme : String
  pub host : Option String

pub record Parsers : Type 0 where
  -- `reqwest::Url::parse` and alloy's `parse::<Address>`, and `to_lowercase`.
  pub parse_url : String → Option Url
  pub is_address : String → Bool
  pub to_lowercase : String → String

abbrev pub listed : List (Option String) → List String
listed [] = []
listed (none ∷ rest) = listed rest
listed (some a ∷ rest) = a ∷ listed rest

unfoldable pub check_websocket : WebSocketConfig → Bool
check_websocket w =
    ltb 0 w.heartbeat_seconds
    && ltb w.heartbeat_seconds w.heartbeat_timeout_seconds
    && ltb w.heartbeat_seconds w.idle_timeout_seconds
    && ltb 0 w.connect_timeout_seconds
    && ltb 0 w.write_timeout_seconds
    && ltb 0 w.reconnect_initial_ms
    && leb w.reconnect_initial_ms (min u64_max (w.reconnect_max_seconds * 1000))

module _ ⦃p : Parsers⦄ where
  unfoldable pub validate_url : String → List String → Result (Unit {0})
  validate_url url schemes = do
    parsed ← context (p.parse_url url) "invalid endpoint URL"
    ensure (any (str_eq parsed.scheme) schemes && is_some parsed.host)
        "unsupported endpoint protocol"

  abbrev pub validate_archive : Option String → Result (Unit {0})
  validate_archive none = ok tt
  validate_archive (some url) = validate_url url ("http" ∷ "https" ∷ "ws" ∷ "wss" ∷ [])

  unfoldable pub check_addresses : String → List String → Result (Unit {0})
  check_addresses message [] = ok tt
  check_addresses message (a ∷ rest) = do
    ensure (p.is_address a) message
    check_addresses message rest

module _ {ℓ} {W : Type ℓ} ⦃f : F64 W⦄ ⦃p : Parsers⦄ where
  -- The endpoints, the life cycle of the connections and the addresses of the accounts.
  unfoldable pub validate_endpoints : Config W → Result (Unit {0})
  unfolding validate_url check_addresses check_websocket
  validate_endpoints c = do
    validate_url c.hyperliquid.http_url ("https" ∷ "http" ∷ [])
    validate_url c.hyperliquid.ws_url ("wss" ∷ "ws" ∷ [])
    validate_url c.liquidity.rpc_url ("https" ∷ "http" ∷ "wss" ∷ "ws" ∷ [])
    ensure (leb 1 c.liquidity.rpc_min_interval_ms && leb c.liquidity.rpc_min_interval_ms 5000)
        "rpc_min_interval_ms must be 1..=5000"
    validate_url c.liquidity.ws_url ("wss" ∷ "ws" ∷ [])
    validate_archive c.liquidity.archive_rpc_url
    ensure (check_websocket c.websocket) "invalid websocket lifecycle settings"
    ensure
        (ltb 0 c.monitoring.hyperliquid_interval_seconds
          && ltb 0 c.monitoring.robinhood_interval_seconds
          && ltb 0 c.monitoring.hyperliquid_refresh_seconds
          && ltb 0 c.monitoring.robinhood_refresh_seconds
          && ltb 0 c.monitoring.refresh_timeout_seconds
          && ltb 0 c.liquidity.nonce_refresh_seconds
          && ltb 0 c.liquidity.pending_warn_seconds
          && ltb 0 c.logging.retained_files)
        "invalid monitoring/lifecycle settings"
    check_addresses "invalid account address"
        (listed (c.hyperliquid.account ∷ c.hyperliquid.vault ∷ c.liquidity.owner ∷ []))
