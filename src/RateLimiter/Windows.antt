-- ===== src/RateLimiter/Windows.antt =====
-- One sliding window: a log of admissions that checks it before each of them never has more than
-- the limit in a minute, although old entries are removed from the window.
use obscura_proto.Common.{
  All-reverse, ℕ, ◌+◌, ◌≤◌, ◌<◌, ◌≡◌, refl, sym, ap, ◌∙◌, inl, inr, List, [], ◌∷◌, ◌++◌, reverse,
  ◌&&◌, arith, ltb, leb, if◌then◌else◌, Bool-cases, ltb→lt, leb→le, All, All-append, append_assoc,
}
use mathlib.Core.List.{reverse-append}
use obscura_proto.RateLimiter.{SlidingWindow, add, count_back, count_last, clean_front, clean}

-- Newest first.
abbrev pub IsSorted : List ℕ → Type 0
IsSorted [] = Unit {0}
IsSorted (t ∷ ts) = All (λ u. u ≤ t) ts × IsSorted ts

-- How many times lie in the minute from `start` on.
abbrev pub count_in : ℕ → List ℕ → ℕ
count_in start [] = 0
count_in start (t ∷ ts) =
    let rest = count_in start ts in if leb start t && leb t (start + 60000) then 1 + rest else rest

All-mono {κ κ'} :
    {P : ℕ → Type κ} {Q : ℕ → Type κ'} (f : (t : ℕ) → P t → Q t) (ts : List ℕ) → All P ts → All Q ts
All-mono f [] h = tt
All-mono f (t ∷ ts) (h, hs) = (f t h, All-mono f ts hs)

count_in-before : (start : ℕ) (ts : List ℕ) → All (λ u. u < start) ts → count_in start ts ≡ 0
count_in-before start [] h = refl
count_in-before start (t ∷ ts) (h, hs) = ground (arith, count_in-before start ts hs)

-- On a sorted log the loop that stops at the first old entry has seen all that count.
count_in-le-count_back :
    (start now : ℕ) (log : List ℕ)
    → IsSorted log
    → now ≤ start + 60000
    → count_in start log ≤ count_back now 60000 log
unfolding count_back
count_in-le-count_back start now [] sorted late = omega arith
count_in-le-count_back start now (t ∷ ts) (below, sorted) late =
    elim (Bool-cases (leb now (t + 60000))) [
      | inl recent ↦ ground (arith, count_in-le-count_back start now ts sorted late)
      | inr passed ↦
          let none_left : count_in start ts ≡ 0 =
            count_in-before start ts (All-mono (λ u h. ground arith) ts below) in
          ground arith
    ]

count_back-old :
    (now : ℕ) (old : List ℕ) → All (λ t. t + 60000 < now) old → count_back now 60000 old ≡ 0
unfolding count_back
count_back-old now [] gone = refl
count_back-old now (t ∷ ts) (h, hs) = ground arith

count_back-append :
    (now : ℕ) (ts old : List ℕ)
    → All (λ t. t + 60000 < now) old
    → count_back now 60000 (ts ++ old) ≡ count_back now 60000 ts
unfolding count_back
count_back-append now [] old gone = count_back-old now old gone
count_back-append now (t ∷ ts) old gone = ground (arith, count_back-append now ts old gone)

-- What the loop of clean drops is over a minute old.
clean_front-split :
    (now : ℕ) (ts : List ℕ)
    → (dropped : List ℕ) × (ts ≡ dropped ++ clean_front now 60000 ts)
      × All (λ t. t + 60000 < now) dropped
unfolding clean_front
clean_front-split now [] = ([], refl, tt)
clean_front-split now (t ∷ ts) =
    let (dropped, split, gone) = clean_front-split now ts in
    elim (Bool-cases (ltb (t + 60000) now)) [
      | inl passed ↦ rw passed (t ∷ dropped, ap (◌∷◌ t) split, (ltb→lt _ _ passed, gone))
      | inr recent ↦ rw recent ([], refl, tt)
    ]

-- The window holds the newest entries of the log; the others are over a minute old. In every
-- minute the log has at most `limit` entries.
pub record Tracks (limit : ℕ) (w : SlidingWindow) (log : List ℕ) (now : ℕ) : Type 0 where
  pub old : List ℕ
  pub split : log ≡ reverse w.timestamps_ms ++ old
  pub gone : All (λ t. t + 60000 < now) old
  pub sorted : IsSorted log
  pub past : All (λ t. t ≤ now) log
  pub limited : (start : ℕ) → count_in start log ≤ limit

pub Tracks-empty : (limit now : ℕ) → Tracks limit (record { timestamps_ms = [] }) [] now
Tracks-empty limit now = record {
  old = [];
  split = refl;
  gone = tt;
  sorted = tt;
  past = tt;
  limited = λ start. omega arith;
}

module _ (limit : ℕ) (w : SlidingWindow) (log : List ℕ) (now : ℕ) where
  pub Tracks-later : (later : ℕ) → now ≤ later → Tracks limit w log now → Tracks limit w log later
  Tracks-later later late k = record {
    old = k.old;
    split = k.split;
    gone = All-mono (λ u h. omega arith) k.old k.gone;
    sorted = k.sorted;
    past = All-mono (λ u h. omega arith) log k.past;
    limited = k.limited;
  }

  count_last-Tracks : Tracks limit w log now → count_last now 60000 w ≡ count_back now 60000 log
  unfolding count_last
  count_last-Tracks k =
      rw k.split (sym (count_back-append now (reverse w.timestamps_ms) k.old k.gone))

  limited-add :
      Tracks limit w log now
      → count_last now 60000 w < limit
      → (start : ℕ) → count_in start (now ∷ log) ≤ limit
  limited-add k room start =
      let seen = count_last-Tracks k in
      let before = k.limited start in
      elim (Bool-cases (leb now (start + 60000))) [
        | inl late ↦
            let few = count_in-le-count_back start now log k.sorted (leb→le _ _ late) in
            ground arith
        | inr far ↦ ground arith
      ]

  pub Tracks-add :
      Tracks limit w log now
      → count_last now 60000 w < limit
      → Tracks limit (add now w) (now ∷ log) now
  unfolding add
  Tracks-add k room = record {
    old = k.old;
    split = rw (reverse-append w.timestamps_ms (now ∷ [])) (ap (◌∷◌ now) k.split);
    gone = k.gone;
    sorted = (k.past, k.sorted);
    past = (omega arith, k.past);
    limited = limited-add k room;
  }

  pub Tracks-clean : Tracks limit w log now → Tracks limit (clean now 60000 w) log now
  unfolding clean
  Tracks-clean k =
      let (dropped, split, gone) = clean_front-split now w.timestamps_ms in
      record {
        old = reverse dropped ++ k.old;
        split =
            k.split
            ∙ ap (λ (l : List ℕ). reverse l ++ k.old) split
            ∙ rw (reverse-append dropped (clean_front now 60000 w.timestamps_ms)) (
                append_assoc (reverse (clean_front now 60000 w.timestamps_ms)) (reverse dropped)
                  k.old);
        gone =
            All-append (λ t. t + 60000 < now) (reverse dropped) k.old (All-reverse _ dropped gone)
              k.gone;
        sorted = k.sorted;
        past = k.past;
        limited = k.limited;
      }
