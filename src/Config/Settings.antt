-- ===== src/Config/Settings.antt =====
-- The lines of the settings of a configuration, section by section, and the loop of Config::from_yaml
-- of src/config.cpp over them.
use obscura_proto.Common.{
  ℕ, ◌≡◌, refl, ap, ◌∙◌, List, [], ◌∷◌, ◌++◌, Bool, true, false, ◌&&◌, not, none, some, arith, ◌==◌,
  if◌then◌else◌, is_same, All,
}
use obscura_proto.Common.Words.{IsU32, codes}
use obscura_proto.Config.Text.{is_blank, is_blank_end, parse_yaml_line}
use obscura_proto.Config.Numbers.{parse_uint32}
use obscura_proto.Config.Decimal.{
  decimal, IsDigit, decimal-IsDigit, decimal_first, parse_uint32-decimal,
}
use obscura_proto.Config.Lines.{IsPlain, entry_line, All-map, parse-entry}
use obscura_proto.Config.{Config, set_enabled, set_number, is_true, set_key, read_lines}

-- The switch of a section, or a key with a number.
pub data Setting : Type 0 where
  switch : Bool → Setting
  number : List ℕ → ℕ → Setting

abbrev pub line_of : Setting → List ℕ
line_of (switch on) = entry_line (codes "enabled") (if on then codes "true" else codes "false")
line_of (number key n) = entry_line key (decimal n)

abbrev pub apply : List ℕ → Setting → Config → Config
apply section (switch on) cfg = set_enabled section on cfg
apply section (number key n) cfg = set_number key n cfg

abbrev pub are_plain : List ℕ → Bool
are_plain [] = true
are_plain (c ∷ cs) =
    (not (is_blank c) && (not (is_blank_end c) && (not (c == 58) && not (c == 35)))) && are_plain cs

abbrev pub IsKey : List ℕ → Type 0
IsKey [] = ⊥
IsKey (k ∷ ks) =
    (are_plain (k ∷ ks) ≡ true)
    × ((is_same (k ∷ ks) (codes "enabled") ≡ false)
        × (is_same (k ∷ ks) (codes "supported_versions") ≡ false))

abbrev pub IsSetting : Setting → Type 0
IsSetting (switch on) = Unit {0}
IsSetting (number key n) = IsKey key × IsU32 n

are_plain→All : (cs : List ℕ) → are_plain cs ≡ true → All IsPlain cs
are_plain→All [] e = tt
are_plain→All (c ∷ cs) e = (ground arith, are_plain→All cs (ground arith))

digit-IsPlain : (c : ℕ) → IsDigit c → IsPlain c
unfolding is_blank is_blank_end
digit-IsPlain c (low, high) = ground arith

-- The step of the loop for a line with a key and a value.
read-line :
    (k v : ℕ) (ks vs section : List ℕ) (ls : List (List ℕ)) (cfg : Config)
    → All IsPlain (k ∷ ks)
    → All IsPlain (v ∷ vs)
    → read_lines (entry_line (k ∷ ks) (v ∷ vs) ∷ ls) section cfg
      ≡ read_lines ls section (set_key section (k ∷ ks) (v ∷ vs) cfg)
unfolding read_lines
read-line k v ks vs section ls cfg key value = rw (parse-entry k ks v vs section key value) refl

set_key-number :
    (section key value : List ℕ) (n : ℕ) (cfg : Config)
    → is_same key (codes "enabled") ≡ false
    → is_same key (codes "supported_versions") ≡ false
    → parse_uint32 value ≡ some n
    → set_key section key value cfg ≡ set_number key n cfg
unfolding set_key
set_key-number section key value n cfg one two read = rw (one, two, read) refl

enabled-IsPlain : All IsPlain (codes "enabled")
unfolding is_blank is_blank_end
enabled-IsPlain = are_plain→All (codes "enabled") refl

true-IsPlain : All IsPlain (codes "true")
unfolding is_blank is_blank_end
true-IsPlain = are_plain→All (codes "true") refl

false-IsPlain : All IsPlain (codes "false")
unfolding is_blank is_blank_end
false-IsPlain = are_plain→All (codes "false") refl

set_key-true :
    (section : List ℕ) (cfg : Config)
    → set_key section (codes "enabled") (codes "true") cfg ≡ set_enabled section true cfg
unfolding set_key is_true
set_key-true section cfg = refl

set_key-false :
    (section : List ℕ) (cfg : Config)
    → set_key section (codes "enabled") (codes "false") cfg ≡ set_enabled section false cfg
unfolding set_key is_true
set_key-false section cfg = refl

read-setting :
    (x : Setting) (section : List ℕ) (ls : List (List ℕ)) (cfg : Config)
    → IsSetting x
    → read_lines (line_of x ∷ ls) section cfg ≡ read_lines ls section (apply section x cfg)
read-setting (switch true) section ls cfg good =
    read-line _ _ _ _ section ls cfg enabled-IsPlain true-IsPlain
    ∙ ap (read_lines ls section) (set_key-true section cfg)
read-setting (switch false) section ls cfg good =
    read-line _ _ _ _ section ls cfg enabled-IsPlain false-IsPlain
    ∙ ap (read_lines ls section) (set_key-false section cfg)
read-setting (number [] n) section ls cfg (bad, small) = absurd bad
read-setting (number (k ∷ ks) n) section ls cfg ((plain, (one, two)), small) =
    let (v, (vs, same)) = decimal_first n in
    let digits : All IsDigit (v ∷ vs) = rw same at (decimal-IsDigit n) in
    let read = rw same at (parse_uint32-decimal n small) in
    rw same (
      read-line k v ks vs section ls cfg (are_plain→All (k ∷ ks) plain)
        (All-map (v ∷ vs) digit-IsPlain digits)
      ∙ ap (read_lines ls section) (set_key-number section (k ∷ ks) (v ∷ vs) n cfg one two read))

abbrev pub apply_all : List ℕ → List Setting → Config → Config
apply_all section [] cfg = cfg
apply_all section (x ∷ xs) cfg = apply_all section xs (apply section x cfg)

abbrev pub lines_of : List Setting → List (List ℕ) → List (List ℕ)
lines_of [] ls = ls
lines_of (x ∷ xs) ls = line_of x ∷ lines_of xs ls

read-settings :
    (xs : List Setting) (section : List ℕ) (ls : List (List ℕ)) (cfg : Config)
    → All IsSetting xs
    → read_lines (lines_of xs ls) section cfg ≡ read_lines ls section (apply_all section xs cfg)
read-settings [] section ls cfg good = refl
read-settings (x ∷ xs) section ls cfg (first, good) =
    read-setting x section (lines_of xs ls) cfg first
    ∙ read-settings xs section ls (apply section x cfg) good

-- A section: its name and its settings.
abbrev pub Section : Type 0
Section = List ℕ × List Setting

abbrev pub print : List Section → List (List ℕ)
print [] = []
print ((name, xs) ∷ rest) = (name ++ 58 ∷ []) ∷ lines_of xs (print rest)

abbrev pub apply_sections : List Section → Config → Config
apply_sections [] cfg = cfg
apply_sections ((name, xs) ∷ rest) cfg = apply_sections rest (apply_all name xs cfg)

-- A line with the name alone changes the section.
abbrev pub IsSection : Section → Type 0
IsSection (name, xs) =
    ((old : List ℕ) → parse_yaml_line (name ++ 58 ∷ []) old ≡ (none, name)) × All IsSetting xs

enters :
    (name old line : List ℕ) (ls : List (List ℕ)) (cfg : Config)
    → parse_yaml_line line old ≡ (none, name)
    → read_lines (line ∷ ls) old cfg ≡ read_lines ls name cfg
unfolding read_lines
enters name old line ls cfg e = rw e refl

pub read-print :
    (all : List Section) (old : List ℕ) (cfg : Config)
    → All IsSection all
    → read_lines (print all) old cfg ≡ apply_sections all cfg
unfolding read_lines
read-print [] old cfg good = refl
read-print ((name, xs) ∷ rest) old cfg ((named, good), others) =
    enters name old (name ++ 58 ∷ []) (lines_of xs (print rest)) cfg (named old)
    ∙ read-settings xs name (print rest) cfg good
    ∙ read-print rest name (apply_all name xs cfg) others
