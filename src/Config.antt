-- ===== src/Config.antt =====
-- src/config.rs: waits between attempts, the socket's address, and PEM for mbedTLS.
pub mod Waits
pub mod Pem
mod Examples
use nerves_hub_link_esp.Base.{
  ℕ, String, Bool, true, false, Option, none, some, List, [], ◌∷◌, ◌++◌, ◌==◌, ◌||◌, get_elem?,
  unwrap_or, any, codes, format, to_string, if◌then◌else◌,
}
use nerves_hub_link_esp.Extensions.{Enabled, none_enabled}
use nerves_hub_link_esp.Error.{Error, Result, ok, err, identity}
use nerves_hub_link_esp.Message.{Serializer, json, vsn}
use nerves_hub_link_esp.SharedSecret.{SharedSecret}

-- PEM is the bytes of a C string.
pub data Credentials : Type 0 where
  client_certificate : List ℕ → List ℕ → Credentials
  shared_secret : String → SharedSecret → Credentials

pub data TlsVersion : Type 0 where
  any_version tls12 tls13 : TlsVersion

-- Without the handle on the TLS session to resume.
pub record Config : Type 0 where
  pub host : String
  pub port : ℕ
  pub credentials : Credentials
  pub server_ca : Option (List ℕ)
  pub use_tls : Bool
  pub device_api_version : String
  pub heartbeat_interval_secs : ℕ
  pub connect_timeout_secs : ℕ
  pub reconnect_backoff_secs : List ℕ
  pub progress_step_percent : ℕ
  pub tls_version : TlsVersion
  pub serializer : Serializer
  pub extensions : Enabled

abbrev pub new : String → Credentials → Config
new host credentials = record {
  host = host;
  port = 443;
  credentials = credentials;
  server_ca = none;
  use_tls = true;
  device_api_version = "2.2.0";
  heartbeat_interval_secs = 30;
  connect_timeout_secs = 10;
  reconnect_backoff_secs = 1 ∷ 2 ∷ 5 ∷ 10 ∷ 30 ∷ 60 ∷ [];
  progress_step_percent = 5;
  tls_version = any_version;
  serializer = json;
  extensions = none_enabled;
}

unfoldable pub socket_path : Config → String
unfolding vsn
socket_path c = format ("/device-socket/websocket?vsn=" ∷ vsn c.serializer ∷ [])

unfoldable pub socket_url : Config → String
unfolding socket_path
socket_url c = format (
    (if c.use_tls then "wss" else "ws")
    ∷ "://"
    ∷ c.host
    ∷ ":"
    ∷ to_string c.port
    ∷ socket_path c
    ∷ [])

-- `slice::last`, or a default.
last_or : ℕ → List ℕ → ℕ
last_or d [] = d
last_or d (x ∷ xs) = last_or x xs

wait_for : List ℕ → ℕ → ℕ
unfolding last_or
wait_for [] attempt = 5
wait_for (x ∷ xs) attempt = unwrap_or (get_elem? (x ∷ xs) attempt) (last_or x xs)

unfoldable pub backoff_for : Config → ℕ → ℕ
unfolding wait_for
backoff_for c attempt = wait_for c.reconnect_backoff_secs attempt

keep_byte : ℕ → List ℕ → List ℕ
keep_byte b [] = if b == 0 then [] else b ∷ []
keep_byte b (c ∷ cs) = b ∷ c ∷ cs

-- The NULs popped from the end.
strip_nuls : List ℕ → List ℕ
unfolding keep_byte
strip_nuls [] = []
strip_nuls (b ∷ bs) = keep_byte b (strip_nuls bs)

-- `CString::new` refuses a NUL.
to_cstring : String → List ℕ → Result (List ℕ)
to_cstring what bytes =
    if any (λ b. b == 0) bytes
    then err (identity (format (what ∷ " contains a NUL byte" ∷ [])))
    else ok bytes

-- The bytes of the C string, without the NUL that ends it.
unfoldable pub leak_pem : List ℕ → String → Result (List ℕ)
unfolding to_cstring strip_nuls
leak_pem [] what = err (identity (format (what ∷ " is empty" ∷ [])))
leak_pem (b ∷ bs) what = to_cstring what (strip_nuls (b ∷ bs))
