-- ===== src/Config/Numbers.antt =====
-- parse_uint32 and the versions of src/config.cpp, with std::stoul as the standard defines it for
-- an unsigned long of 64 bits. A call that throws is none.
use obscura_proto.Common.{
  ℕ, ◌+◌, ◌-◌, ◌*◌, ◌%◌, ◌^◌, List, [], ◌∷◌, ◌++◌, Bool, true, false, ◌&&◌, ◌||◌, Option, none,
  some, ltb, leb, ◌==◌, if◌then◌else◌,
}

abbrev between : ℕ → ℕ → ℕ → Bool
between lo hi c = leb lo c && leb c hi

-- The value of a digit, and 99 for another character.
unfoldable pub digit_value : ℕ → ℕ
digit_value c =
    if between 48 57 c
    then c - 48
    else if between 97 102 c
    then c - 87
    else if between 65 70 c
    then c - 55
    else 99

unfoldable pub is_digit : ℕ → ℕ → Bool
unfolding digit_value
is_digit base c = ltb (digit_value c) base

-- isspace
unfoldable pub is_space : ℕ → Bool
is_space c = c == 32 || between 9 13 c

unfoldable pub skip_space : List ℕ → List ℕ
skip_space [] = []
skip_space (c ∷ cs) = let rest = skip_space cs in if is_space c then rest else c ∷ cs

-- Whether there is a minus, and what follows the sign.
unfoldable pub read_sign : List ℕ → Bool × List ℕ
read_sign [] = (false, [])
read_sign (c ∷ cs) =
    if c == 45 then (true, cs) else if c == 43 then (false, cs) else (false, c ∷ cs)

abbrev starts_with_digit : ℕ → List ℕ → Bool
starts_with_digit base [] = false
starts_with_digit base (c ∷ cs) = is_digit base c

-- 0x or 0X in front of a hexadecimal digit.
unfoldable pub skip_prefix : List ℕ → List ℕ
skip_prefix (z ∷ (x ∷ cs)) =
    if z == 48 && (x == 120 || x == 88) && starts_with_digit 16 cs then cs else z ∷ (x ∷ cs)
skip_prefix cs = cs

-- The digits up to the first character that is none.
unfoldable pub read_digits : ℕ → ℕ → List ℕ → ℕ
read_digits base n [] = n
read_digits base n (c ∷ cs) =
    let more = read_digits base (n * base + digit_value c) cs in if is_digit base c then more else n

-- invalid_argument without a digit, out_of_range from 2 ^ 64 on. A minus negates modulo 2 ^ 64.
unfoldable pub unsigned : ℕ → Bool → List ℕ → Option ℕ
unsigned base minus cs =
    let n = read_digits base 0 cs in
    if starts_with_digit base cs && ltb n (2 ^ 64)
    then some (if minus then (2 ^ 64 - n) % 2 ^ 64 else n)
    else none

unfoldable pub stoul : ℕ → List ℕ → Option ℕ
unfolding unsigned
stoul base s =
    let (minus, cs) = read_sign (skip_space s) in
    unsigned base minus (if base == 16 then skip_prefix cs else cs)

unfoldable pub is_hex : List ℕ → Bool
is_hex (z ∷ (x ∷ (c ∷ cs))) = z == 48 && (x == 120 || x == 88)
is_hex _ = false

abbrev pub cut {ℓ} : {A : Type ℓ} → (ℕ → A) → Option ℕ → Option A
cut f none = none
cut f (some n) = some (f n)

abbrev is_empty : List ℕ → Bool
is_empty [] = true
is_empty (c ∷ cs) = false

unfoldable pub parse_uint32 : List ℕ → Option ℕ
parse_uint32 s =
    if is_empty s
    then some 0
    else cut (λ n. n % 2 ^ 32) (if is_hex s then stoul 16 s else stoul 10 s)

-- The characters 0123456789xXabcdefABCDEF.
unfoldable pub is_version_char : ℕ → Bool
is_version_char c = is_digit 16 c || c == 120 || c == 88

abbrev flush : List ℕ → List (List ℕ) → List (List ℕ)
flush [] runs = runs
flush (c ∷ cs) runs = (c ∷ cs) ∷ runs

-- The runs of these characters in a value; `run` is the one that is being read.
unfoldable pub version_runs : List ℕ → List ℕ → List (List ℕ)
version_runs run [] = flush run []
version_runs run (c ∷ cs) =
    let longer = version_runs (run ++ (c ∷ [])) cs in
    let next = version_runs [] cs in if is_version_char c then longer else flush run next

abbrev push_version : Option ℕ → Option (List ℕ) → Option (List ℕ)
push_version (some n) (some vs) = some (n % 2 ^ 16 ∷ vs)
push_version _ _ = none

unfoldable pub versions_of : List (List ℕ) → Option (List ℕ)
versions_of [] = some []
versions_of (run ∷ runs) = push_version (stoul 16 run) (versions_of runs)

unfoldable pub parse_versions : List ℕ → Option (List ℕ)
unfolding version_runs versions_of
parse_versions value = versions_of (version_runs [] value)
