-- ===== src/Config/Text.antt =====
-- trim and parse_yaml_line of src/config.cpp.
use obscura_proto.Common.{
  ℕ, ◌≡◌, refl, sym, ap, ◌∙◌, inl, inr, List, [], ◌∷◌, ◌++◌, reverse, Bool, true, false, ◌||◌,
  Option, none, some, ◌==◌, if◌then◌else◌, Bool-cases, All, All-reverse,
}
use mathlib.Core.List.{reverse-append, reverse-reverse}

-- Space and tab.
unfoldable pub is_blank : ℕ → Bool
is_blank c = c == 32 || c == 9

-- At the end of a line also carriage return.
unfoldable pub is_blank_end : ℕ → Bool
is_blank_end c = c == 32 || c == 9 || c == 13

unfoldable pub drop_while : (ℕ → Bool) → List ℕ → List ℕ
drop_while test [] = []
drop_while test (c ∷ cs) = let rest = drop_while test cs in if test c then rest else c ∷ cs

unfoldable pub trim : List ℕ → List ℕ
unfolding drop_while
trim s = reverse (drop_while is_blank_end (reverse (drop_while is_blank s)))

-- What stands before the first `c`, and what behind it.
unfoldable pub split_at : ℕ → List ℕ → Option (List ℕ × List ℕ)
split_at c [] = none
split_at c (x ∷ xs) =
    let later = split_at c xs in
    if x == c
    then some ([], xs)
    else elim later [ none ↦ none | some found ↦ some (x ∷ found.0, found.1) ]

-- The line without its comment.
unfoldable pub strip_comment : List ℕ → List ℕ
unfolding split_at
strip_comment line = elim (split_at 35 line) [ none ↦ line | some found ↦ found.0 ]

abbrev entry_of : List ℕ → List ℕ → List ℕ → Option (List ℕ × List ℕ) × List ℕ
entry_of before [] section = (none, before)
entry_of before (c ∷ cs) section = (some (before, c ∷ cs), section)

-- The key and the value, if the line has both, and the section behind the line.
unfoldable pub parse_yaml_line : List ℕ → List ℕ → Option (List ℕ × List ℕ) × List ℕ
unfolding strip_comment trim split_at
parse_yaml_line line section = elim (split_at 58 (trim (strip_comment line))) [
  | none ↦ (none, section)
  | some found ↦ entry_of (trim found.0) (trim found.1) section
]

-- The first character passes the test.
abbrev pub starts : (ℕ → Bool) → List ℕ → Bool
starts test [] = false
starts test (c ∷ cs) = test c

drop_while-split :
    (test : ℕ → Bool) (s : List ℕ)
    → (dropped : List ℕ) × (s ≡ dropped ++ drop_while test s)
      × All (λ c. test c ≡ true) dropped
      × (starts test (drop_while test s) ≡ false)
unfolding drop_while
drop_while-split test [] = ([], refl, tt, refl)
drop_while-split test (c ∷ cs) =
    let (dropped, split, blanks, stops) = drop_while-split test cs in
    elim (Bool-cases (test c)) [
      | inl blank ↦ rw blank (c ∷ dropped, ap (◌∷◌ c) split, (blank, blanks), stops)
      | inr other ↦ rw other ([], refl, tt, other)
    ]

starts-append :
    (test : ℕ → Bool) (xs ys : List ℕ) → starts test (xs ++ ys) ≡ false → starts test xs ≡ false
starts-append test [] ys e = refl
starts-append test (x ∷ xs) ys e = e

-- `trim` takes off blanks in front, and blanks and carriage returns behind, and nothing is left to
-- take off at either end.
pub trim-split :
    (s : List ℕ)
    → (front back : List ℕ) × (s ≡ front ++ (trim s ++ back))
      × All (λ c. is_blank c ≡ true) front
      × All (λ c. is_blank_end c ≡ true) back
      × (starts is_blank (trim s) ≡ false)
      × (starts is_blank_end (reverse (trim s)) ≡ false)
unfolding trim
trim-split s =
    let (front, split, blanks, stops) = drop_while-split is_blank s in
    let rest = drop_while is_blank s in
    let (dropped, split', blanks', stops') = drop_while-split is_blank_end (reverse rest) in
    let kept = drop_while is_blank_end (reverse rest) in
    let whole : rest ≡ reverse kept ++ reverse dropped =
      sym (reverse-reverse rest) ∙ ap reverse split' ∙ reverse-append dropped kept in
    (
      front,
      reverse dropped,
      split ∙ ap (◌++◌ front) whole,
      blanks,
      All-reverse (λ c. is_blank_end c ≡ true) dropped blanks',
      starts-append is_blank (reverse kept) (reverse dropped) (rw whole at stops),
      rw (reverse-reverse kept) stops',
    )
