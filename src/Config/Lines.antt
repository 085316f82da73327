-- ===== src/Config/Lines.antt =====
-- A line `key: value` or `name:` as config_example.yml has it, and parse_yaml_line of src/config.cpp.
use obscura_proto.Common.{
  ℕ, ◌≡◌, refl, sym, ap, ◌∙◌, List, [], ◌∷◌, ◌++◌, reverse, Bool, true, false, none, some, arith,
  ◌==◌, All, All-reverse, All-append, append_assoc,
}
use mathlib.Core.List.{reverse-append, reverse-reverse, reverse-cons}
use obscura_proto.Config.Text.{
  is_blank, is_blank_end, drop_while, trim, split_at, strip_comment, starts, parse_yaml_line,
}

unfoldable pub entry_line : List ℕ → List ℕ → List ℕ
entry_line key value = 32 ∷ 32 ∷ (key ++ 58 ∷ 32 ∷ value)

-- No blank, no end of a line, no colon and no number sign.
abbrev pub IsPlain : ℕ → Type 0
IsPlain c =
    (is_blank c ≡ false) × ((is_blank_end c ≡ false) × (((c == 58) ≡ false) × ((c == 35) ≡ false)))

split_at-none : (c : ℕ) (s : List ℕ) → All (λ x. (x == c) ≡ false) s → split_at c s ≡ none
unfolding split_at
split_at-none c [] all = refl
split_at-none c (x ∷ xs) (other, all) = rw (other, split_at-none c xs all) refl

split_at-first :
    (c : ℕ) (s rest : List ℕ)
    → All (λ x. (x == c) ≡ false) s
    → (c == c) ≡ true
    → split_at c (s ++ c ∷ rest) ≡ some (s, rest)
unfolding split_at
split_at-first c [] rest all same = rw same refl
split_at-first c (x ∷ xs) rest (other, all) same =
    rw (other, split_at-first c xs rest all same) refl

drop_while-starts : (test : ℕ → Bool) (s : List ℕ) → starts test s ≡ false → drop_while test s ≡ s
unfolding drop_while
drop_while-starts test [] e = refl
drop_while-starts test (c ∷ cs) e = rw e refl

starts-All :
    (test : ℕ → Bool) (xs ys : List ℕ)
    → All (λ c. test c ≡ false) xs
    → starts test ys ≡ false
    → starts test (xs ++ ys) ≡ false
starts-All test [] ys all e = e
starts-All test (x ∷ xs) ys (first, all) e = first

-- Nothing is taken off a list that ends in a plain character.
trim_end :
    (front : List ℕ) (v : ℕ) (vs : List ℕ)
    → All (λ c. is_blank_end c ≡ false) (v ∷ vs)
    → drop_while is_blank_end (reverse (front ++ v ∷ vs)) ≡ reverse (front ++ v ∷ vs)
trim_end front v vs (first, all) =
    let turned : reverse (front ++ v ∷ vs) ≡ reverse vs ++ (v ∷ reverse front) =
      reverse-append front (v ∷ vs)
      ∙ ap (λ l. l ++ reverse front) (reverse-cons v vs)
      ∙ append_assoc (reverse vs) (v ∷ []) (reverse front) in
    rw turned (
      drop_while-starts is_blank_end (reverse vs ++ (v ∷ reverse front)) (
        starts-All is_blank_end (reverse vs) (v ∷ reverse front)
          (All-reverse (λ c. is_blank_end c ≡ false) vs all) first))

trim_plain :
    (c : ℕ) (cs front : List ℕ) (v : ℕ) (vs : List ℕ)
    → is_blank c ≡ false
    → c ∷ cs ≡ front ++ v ∷ vs
    → All (λ c. is_blank_end c ≡ false) (v ∷ vs)
    → trim (c ∷ cs) ≡ c ∷ cs
unfolding trim
trim_plain c cs front v vs plain split ends =
    let kept : drop_while is_blank (c ∷ cs) ≡ c ∷ cs = drop_while-starts is_blank (c ∷ cs) plain in
    let last : drop_while is_blank_end (reverse (c ∷ cs)) ≡ reverse (c ∷ cs) =
      ap (λ s. drop_while is_blank_end (reverse s)) split
      ∙ trim_end front v vs ends
      ∙ ap reverse (sym split) in
    ap (λ s. reverse (drop_while is_blank_end (reverse s))) kept
    ∙ ap reverse last
    ∙ reverse-reverse (c ∷ cs)

trim_blank : (s : List ℕ) → trim (32 ∷ s) ≡ trim s
unfolding trim is_blank drop_while
trim_blank s = refl

pub All-map : {P Q : ℕ → Type 0} (xs : List ℕ) → ((c : ℕ) → P c → Q c) → All P xs → All Q xs
All-map [] f all = tt
All-map (x ∷ xs) f (first, all) = (f x first, All-map xs f all)

parse_split :
    (line section before after : List ℕ) (k v : ℕ) (ks vs : List ℕ)
    → split_at 58 (trim (strip_comment line)) ≡ some (before, after)
    → trim before ≡ k ∷ ks
    → trim after ≡ v ∷ vs
    → parse_yaml_line line section ≡ (some (k ∷ ks, v ∷ vs), section)
unfolding parse_yaml_line strip_comment trim split_at
parse_split line section before after k v ks vs split key value = ground (arith, split, key, value)

module _ (k : ℕ) (ks : List ℕ) (v : ℕ) (vs section : List ℕ) (key_plain : All IsPlain (k ∷ ks))
    (value_plain : All IsPlain (v ∷ vs)) where
  no_sign : (xs : List ℕ) → All IsPlain xs → All (λ c. (c == 35) ≡ false) xs
  no_sign xs all = All-map xs (λ c plain. plain.1.1.1) all

  no_end : (xs : List ℕ) → All IsPlain xs → All (λ c. is_blank_end c ≡ false) xs
  no_end xs all = All-map xs (λ c plain. plain.1.0) all

  no_comment : strip_comment (entry_line (k ∷ ks) (v ∷ vs)) ≡ entry_line (k ∷ ks) (v ∷ vs)
  unfolding strip_comment entry_line
  no_comment =
      let rest : All (λ c. (c == 35) ≡ false) (58 ∷ 32 ∷ v ∷ vs) =
        (refl, (refl, no_sign (v ∷ vs) value_plain)) in
      let all : All (λ c. (c == 35) ≡ false) (entry_line (k ∷ ks) (v ∷ vs)) = (
        refl,
        (
          refl,
          All-append (λ c. (c == 35) ≡ false) (k ∷ ks) (58 ∷ 32 ∷ v ∷ vs)
              (no_sign (k ∷ ks) key_plain) rest,
        ),
      ) in
      rw (split_at-none 35 (entry_line (k ∷ ks) (v ∷ vs)) all, strip_comment) refl

  trimmed : trim (entry_line (k ∷ ks) (v ∷ vs)) ≡ (k ∷ ks) ++ 58 ∷ 32 ∷ v ∷ vs
  unfolding entry_line
  trimmed =
      trim_blank (32 ∷ ((k ∷ ks) ++ 58 ∷ 32 ∷ v ∷ vs))
      ∙ trim_blank ((k ∷ ks) ++ 58 ∷ 32 ∷ v ∷ vs)
      ∙ trim_plain k (ks ++ 58 ∷ 32 ∷ v ∷ vs) ((k ∷ ks) ++ 58 ∷ 32 ∷ []) v vs key_plain.0.0
          (sym (append_assoc (k ∷ ks) (58 ∷ 32 ∷ []) (v ∷ vs))) (no_end (v ∷ vs) value_plain)

  -- Two blanks, a key, a colon, a blank and a value are read as this key and this value.
  pub parse-entry :
      parse_yaml_line (entry_line (k ∷ ks) (v ∷ vs)) section ≡ (some (k ∷ ks, v ∷ vs), section)
  parse-entry =
      let parts : split_at 58 (trim (strip_comment (entry_line (k ∷ ks) (v ∷ vs))))
          ≡ some (k ∷ ks, 32 ∷ v ∷ vs) =
        ap (λ s. split_at 58 (trim s)) no_comment
        ∙ ap (split_at 58) trimmed
        ∙ split_at-first 58 (k ∷ ks) (32 ∷ v ∷ vs)
            (All-map (k ∷ ks) (λ c plain. plain.1.1.0) key_plain) refl in
      parse_split (entry_line (k ∷ ks) (v ∷ vs)) section (k ∷ ks) (32 ∷ v ∷ vs) k v ks vs parts
        (trim_plain k ks [] k ks key_plain.0.0 refl (no_end (k ∷ ks) key_plain))
        (trim_blank (v ∷ vs)
          ∙ trim_plain v vs [] v vs value_plain.0.0 refl (no_end (v ∷ vs) value_plain))
