-- ===== src/Config.antt =====
-- include/obscuraproto/config.hpp and src/config.cpp: the configuration and its reader. A string
-- is the list of its character codes; a file is the list of its lines. Opening the file is not
-- modelled: a file that cannot be opened gives what an empty one gives.
pub mod Numbers
pub mod Text
pub mod Bounds
pub mod Decimal
pub mod Lines
pub mod Settings
pub mod Printing
mod Tests
use obscura_proto.Common.{
  ℕ, ◌+◌, ◌*◌, ◌%◌, ◌^◌, List, [], ◌∷◌, Bool, true, false, ◌&&◌, ◌||◌, Option, none, some, ltb,
  ◌==◌, if◌then◌else◌, is_same,
}
use obscura_proto.Common.Words.{codes}
use obscura_proto.RateLimiter.{RateLimitConfig}
use obscura_proto.Config.Numbers.{parse_uint32, parse_versions}
use obscura_proto.Config.Text.{parse_yaml_line}

pub record ConnectionLimitConfig : Type 0 where
  pub enabled : Bool
  pub max_per_ip : ℕ
  pub max_total : ℕ

pub record MessageLimitConfig : Type 0 where
  pub enabled : Bool
  pub max_ws_frame_size : ℕ
  pub max_decrypted_payload : ℕ

pub record TimeoutConfig : Type 0 where
  pub enabled : Bool
  pub handshake_ms : ℕ
  pub idle_ms : ℕ
  pub check_interval_ms : ℕ
  pub request_ms : ℕ

pub record ReservedOpcodes : Type 0 where
  pub response : ℕ
  pub stream_start : ℕ
  pub stream_data : ℕ
  pub stream_end : ℕ
  pub stream_cancel : ℕ

pub record Config : Type 0 where
  pub rate_limit : RateLimitConfig
  pub connection_limits : ConnectionLimitConfig
  pub message_limits : MessageLimitConfig
  pub timeouts : TimeoutConfig
  pub opcodes : ReservedOpcodes
  pub supported_versions : List ℕ

-- `Config cfg;`: the members' initializers, and no versions.
unfoldable pub initial : Config
initial = record {
  rate_limit = record {
    enabled = true;
    messages_per_second = 100;
    burst_size = 200;
    handshake_attempts_per_minute = 10;
    connections_per_minute = 30;
  };
  connection_limits = record { enabled = true; max_per_ip = 10; max_total = 1000 };
  message_limits = record {
    enabled = true;
    max_ws_frame_size = 1048576;
    max_decrypted_payload = 65535;
  };
  timeouts = record {
    enabled = true;
    handshake_ms = 10000;
    idle_ms = 300000;
    check_interval_ms = 5000;
    request_ms = 30000;
  };
  opcodes = record {
    response = 0xFFFF;
    stream_start = 0xFFFD;
    stream_data = 0xFFFC;
    stream_end = 0xFFFB;
    stream_cancel = 0xFFFA;
  };
  supported_versions = [];
}

unfoldable pub with_defaults : Config
unfolding initial
with_defaults = record initial { supported_versions = 0x0101 ∷ 0x0100 ∷ [] }

-- `enabled` goes to the section that the line stands in, if it is one of the four.
unfoldable pub set_enabled : List ℕ → Bool → Config → Config
set_enabled section v cfg =
    let a = cfg.rate_limit in
    let b = cfg.connection_limits in
    let c = cfg.message_limits in
    let d = cfg.timeouts in
    if is_same section (codes "rate_limiting")
    then record cfg { rate_limit = record a { enabled = v } }
    else if is_same section (codes "connection_limits")
    then record cfg { connection_limits = record b { enabled = v } }
    else if is_same section (codes "message_limits")
    then record cfg { message_limits = record c { enabled = v } }
    else if is_same section (codes "timeouts")
    then record cfg { timeouts = record d { enabled = v } }
    else cfg

-- The keys with a number, by the group they belong to, and the group with a number set; none for
-- another key.
unfoldable pub set_rate : List ℕ → ℕ → RateLimitConfig → Option RateLimitConfig
set_rate key n c =
    if is_same key (codes "messages_per_second")
    then some (record c { messages_per_second = n })
    else if is_same key (codes "burst_size")
    then some (record c { burst_size = n })
    else if is_same key (codes "handshake_attempts_per_minute")
    then some (record c { handshake_attempts_per_minute = n })
    else if is_same key (codes "connections_per_minute")
    then some (record c { connections_per_minute = n })
    else none

unfoldable pub set_connection : List ℕ → ℕ → ConnectionLimitConfig → Option ConnectionLimitConfig
set_connection key n c =
    if is_same key (codes "max_per_ip")
    then some (record c { max_per_ip = n })
    else if is_same key (codes "max_total")
    then some (record c { max_total = n })
    else none

unfoldable pub set_message : List ℕ → ℕ → MessageLimitConfig → Option MessageLimitConfig
set_message key n c =
    if is_same key (codes "max_ws_frame_size")
    then some (record c { max_ws_frame_size = n })
    else if is_same key (codes "max_decrypted_payload")
    then some (record c { max_decrypted_payload = n })
    else none

unfoldable pub set_timeout : List ℕ → ℕ → TimeoutConfig → Option TimeoutConfig
set_timeout key n c =
    if is_same key (codes "handshake_ms")
    then some (record c { handshake_ms = n })
    else if is_same key (codes "idle_ms")
    then some (record c { idle_ms = n })
    else if is_same key (codes "check_interval_ms")
    then some (record c { check_interval_ms = n })
    else if is_same key (codes "request_ms")
    then some (record c { request_ms = n })
    else none

-- The operation codes are cut to 16 bits.
unfoldable pub set_opcode : List ℕ → ℕ → ReservedOpcodes → Option ReservedOpcodes
set_opcode key n c =
    let code = n % 2 ^ 16 in
    if is_same key (codes "RESPONSE")
    then some (record c { response = code })
    else if is_same key (codes "STREAM_START")
    then some (record c { stream_start = code })
    else if is_same key (codes "STREAM_DATA")
    then some (record c { stream_data = code })
    else if is_same key (codes "STREAM_END")
    then some (record c { stream_end = code })
    else if is_same key (codes "STREAM_CANCEL")
    then some (record c { stream_cancel = code })
    else none

abbrev pub or_else {ℓ κ} : {A : Type ℓ} {B : Type κ} → Option A → (A → B) → B → B
or_else none f b = b
or_else (some a) f b = f a

unfoldable pub set_number : List ℕ → ℕ → Config → Config
set_number key n cfg =
    or_else (set_rate key n cfg.rate_limit) (λ c. record cfg { rate_limit = c })
      (or_else (set_connection key n cfg.connection_limits)
        (λ c. record cfg { connection_limits = c })
        (or_else (set_message key n cfg.message_limits) (λ c. record cfg { message_limits = c })
          (or_else (set_timeout key n cfg.timeouts) (λ c. record cfg { timeouts = c })
            (or_else (set_opcode key n cfg.opcodes) (λ c. record cfg { opcodes = c }) cfg))))

unfoldable pub is_true : List ℕ → Bool
is_true value =
    is_same value (codes "true") || is_same value (codes "yes") || is_same value (codes "1")

-- A list of versions that is empty leaves the old one.
abbrev pub set_versions : List ℕ → Config → Config
set_versions [] cfg = cfg
set_versions (v ∷ vs) cfg = record cfg { supported_versions = v ∷ vs }

-- One key with its value. A value that throws leaves the configuration as it was.
unfoldable pub set_key : List ℕ → List ℕ → List ℕ → Config → Config
set_key section key value cfg =
    if is_same key (codes "enabled")
    then set_enabled section (is_true value) cfg
    else if is_same key (codes "supported_versions")
    then or_else (parse_versions value) (λ vs. set_versions vs cfg) cfg
    else or_else (parse_uint32 value) (λ n. set_number key n cfg) cfg

abbrev pub apply_line : Option (List ℕ × List ℕ) → List ℕ → Config → Config
apply_line none section cfg = cfg
apply_line (some (key, value)) section cfg = set_key section key value cfg

-- The loop over the lines, with the section that it is in.
unfoldable pub read_lines : List (List ℕ) → List ℕ → Config → Config
read_lines [] section cfg = cfg
read_lines (line ∷ lines) section cfg =
    let (entry, section') = parse_yaml_line line section in
    read_lines lines section' (apply_line entry section' cfg)

unfoldable pub from_yaml : List (List ℕ) → Config
from_yaml lines = read_lines lines [] initial
