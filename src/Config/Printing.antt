-- ===== src/Config/Printing.antt =====
-- A configuration in the form of config_example.yml, and Config::from_yaml of src/config.cpp.
use obscura_proto.Common.{ℕ, ◌≡◌, refl, ◌∙◌, List, [], ◌∷◌, ◌%◌, ◌^◌, arith, All}
use obscura_proto.Common.Words.{IsU16, codes}
use obscura_proto.Config.Text.{is_blank, is_blank_end, parse_yaml_line}
use obscura_proto.Config.Bounds.{IsInRange}
use obscura_proto.Config.{
  Config, initial, set_enabled, set_rate, set_connection, set_message, set_timeout, set_opcode,
  set_number, from_yaml,
}
use obscura_proto.Config.Settings.{
  Section, switch, number, IsSection, print, apply_sections, read-print,
}

-- All settings of a configuration but its versions, in the order of config_example.yml.
abbrev pub sections_of : Config → List Section
sections_of cfg =
    let a = cfg.rate_limit in
    let b = cfg.connection_limits in
    let c = cfg.message_limits in
    let d = cfg.timeouts in
    let o = cfg.opcodes in
    (
      codes "rate_limiting",
      switch a.enabled
          ∷ number (codes "messages_per_second") a.messages_per_second
          ∷ number (codes "burst_size") a.burst_size
          ∷ number (codes "handshake_attempts_per_minute") a.handshake_attempts_per_minute
          ∷ number (codes "connections_per_minute") a.connections_per_minute
          ∷ [],
    )
    ∷ (
      codes "connection_limits",
      switch b.enabled
          ∷ number (codes "max_per_ip") b.max_per_ip
          ∷ number (codes "max_total") b.max_total
          ∷ [],
    )
    ∷ (
      codes "message_limits",
      switch c.enabled
          ∷ number (codes "max_ws_frame_size") c.max_ws_frame_size
          ∷ number (codes "max_decrypted_payload") c.max_decrypted_payload
          ∷ [],
    )
    ∷ (
      codes "timeouts",
      switch d.enabled
          ∷ number (codes "handshake_ms") d.handshake_ms
          ∷ number (codes "idle_ms") d.idle_ms
          ∷ number (codes "check_interval_ms") d.check_interval_ms
          ∷ number (codes "request_ms") d.request_ms
          ∷ [],
    )
    ∷ (
      codes "opcodes",
      number (codes "RESPONSE") o.response
          ∷ number (codes "STREAM_START") o.stream_start
          ∷ number (codes "STREAM_DATA") o.stream_data
          ∷ number (codes "STREAM_END") o.stream_end
          ∷ number (codes "STREAM_CANCEL") o.stream_cancel
          ∷ [],
    )
    ∷ []

cut_16 : (n : ℕ) → IsU16 n → n % 2 ^ 16 ≡ n
cut_16 n small = omega (arith, small)

sections_applied :
    (cfg : Config)
    → IsInRange cfg
    → apply_sections (sections_of cfg) initial ≡ record cfg { supported_versions = [] }
unfolding set_enabled set_number set_rate set_connection set_message set_timeout set_opcode initial
sections_applied cfg h =
    rw
      (
        cut_16 _ h.opcodes.response,
        cut_16 _ h.opcodes.stream_start,
        cut_16 _ h.opcodes.stream_data,
        cut_16 _ h.opcodes.stream_end,
        cut_16 _ h.opcodes.stream_cancel,
      )
      refl

sections_good : (cfg : Config) → IsInRange cfg → All IsSection (sections_of cfg)
unfolding is_blank is_blank_end parse_yaml_line
sections_good cfg h = (
  (λ old. refl, ground arith),
  (
    (λ old. refl, ground arith),
    ((λ old. refl, ground arith), ((λ old. refl, ground arith), ((λ old. refl, ground arith), tt))),
  ),
)

-- A configuration whose numbers fit their types, printed section by section in the form of
-- config_example.yml without its versions, is read back by from_yaml as it was, without versions.
pub from_yaml-print :
    (cfg : Config)
    → IsInRange cfg
    → from_yaml (print (sections_of cfg)) ≡ record cfg { supported_versions = [] }
unfolding from_yaml
from_yaml-print cfg h =
    read-print (sections_of cfg) [] initial (sections_good cfg h) ∙ sections_applied cfg h
