-- ===== src/Config/Tests.antt =====
-- Lines and files, as config_example.yml has them.
use obscura_proto.Common.{◌≡◌, refl, [], ◌∷◌, false, none, some, arith}
use obscura_proto.Common.Words.{codes}
use obscura_proto.Config.Numbers.{
  parse_uint32, parse_versions, is_hex, stoul, is_space, skip_space, read_sign, skip_prefix,
  read_digits, is_digit, is_version_char,
}
use obscura_proto.Config.Text.{is_blank, is_blank_end, trim, parse_yaml_line}
use obscura_proto.Config.Bounds.{IsInRange}
use obscura_proto.Config.Settings.{print}
use obscura_proto.Config.Printing.{sections_of, from_yaml-print}
use obscura_proto.Config.{Config, initial, from_yaml, read_lines}

trim_test : trim (codes " \ta b \r") ≡ codes "a b"
unfolding trim is_blank is_blank_end
trim_test = refl

line_test :
    parse_yaml_line (codes "    max_per_ip: 10   # per address") (codes "connection_limits")
    ≡ (some (codes "max_per_ip", codes "10"), codes "connection_limits")
unfolding parse_yaml_line is_blank is_blank_end
line_test = refl

section_test : parse_yaml_line (codes "  timeouts:") (codes "server") ≡ (none, codes "timeouts")
unfolding parse_yaml_line is_blank is_blank_end
section_test = refl

hex_test : parse_uint32 (codes "0xFFFC") ≡ some 65532
unfolding parse_uint32 is_hex stoul is_space skip_space read_sign skip_prefix read_digits is_digit
hex_test = refl

-- std::stoul takes a minus.
minus_test : parse_uint32 (codes "-1") ≡ some 4294967295
unfolding parse_uint32 is_hex stoul is_space skip_space read_sign skip_prefix read_digits is_digit
minus_test = refl

no_digit_test : parse_uint32 (codes "many") ≡ none
unfolding parse_uint32 is_hex stoul is_space skip_space read_sign skip_prefix read_digits is_digit
no_digit_test = refl

versions_test : parse_versions (codes "[0x0101, 0x0100]") ≡ some (257 ∷ 256 ∷ [])
unfolding parse_versions is_version_char stoul is_space skip_space read_sign skip_prefix read_digits
    is_digit
versions_test = refl

-- A file without the key leaves the versions empty, not the defaults.
no_versions_test : (from_yaml []).supported_versions ≡ []
unfolding from_yaml read_lines initial
no_versions_test = refl

abbrev tuned : Config
tuned = record initial {
  message_limits = record {
    enabled = false;
    max_ws_frame_size = 0;
    max_decrypted_payload = 4294967295;
  };
  supported_versions = 257 ∷ [];
}

tuned_range : IsInRange tuned
unfolding initial
tuned_range = ground arith

from_yaml-print_example :
    from_yaml (print (sections_of tuned)) ≡ record tuned { supported_versions = [] }
from_yaml-print_example = from_yaml-print tuned tuned_range
