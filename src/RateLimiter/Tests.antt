-- ===== src/RateLimiter/Tests.antt =====
-- Runs of a limiter of two connections and one handshake per minute, and a burst of three. Whole
-- numbers stand for the doubles.
use obscura_proto.Common.{
  put, ℕ, ◌+◌, ◌-◌, ◌*◌, ◌/◌, ◌≤◌, ◌≡◌, refl, List, [], ◌∷◌, true, false, arith, ltb, leb,
  if◌then◌else◌,
}
use obscura_proto.RateLimiter.Floats.{Double, DoubleLaws}
use obscura_proto.RateLimiter.{
  RateLimitConfig, RateLimiter, Ip, new, change, capacity, count_back, count_last, add,
  check_connection_rate, record_connection, check_active_connections,
}
use obscura_proto.RateLimiter.Windows.{count_in}
use obscura_proto.RateLimiter.Admission.{admitted_per_minute}
use obscura_proto.RateLimiter.History.{
  starts, waits, connects, cleans, shakes_hands, admit_connection, admit_handshake,
}
use obscura_proto.RateLimiter.Burst.{passed, count_true, message_burst}

abbrev pub whole : Double
whole = record {
  Carrier = ℕ;
  of_ℕ = λ n. n;
  add = λ a b. a + b;
  sub = λ a b. a - b;
  mul = λ a b. a * b;
  div = λ a b. a / b;
  lt = ltb;
  le = leb;
}

whole_laws : DoubleLaws whole
whole_laws = record {
  lt-of_ℕ = λ a b _ _. refl;
  le-of_ℕ = λ a b _ _. refl;
  add-of_ℕ = λ a b _. refl;
  sub-of_ℕ = λ a b _. omega arith;
  div_zero = λ b h _. omega arith;
  mul_zero = λ b _. omega arith;
}

abbrev config : RateLimitConfig
config = record {
  enabled = true;
  messages_per_second = 2;
  burst_size = 3;
  handshake_attempts_per_minute = 1;
  connections_per_minute = 2;
}

abbrev home : Ip
home = 49 ∷ 50 ∷ []

-- Two admissions at 1000 and 2000.
abbrev twice : RateLimiter whole
twice = record_connection whole 2000 home (record_connection whole 1000 home (new whole config))

third_test : (check_connection_rate whole 61000 home twice).0 ≡ false
unfolding check_connection_rate record_connection count_last count_back add change put new
third_test = refl

later_test : (check_connection_rate whole 61001 home twice).0 ≡ true
unfolding check_connection_rate record_connection count_last count_back add change put new
later_test = refl

-- With a message rate set, no connection is within the limits.
active_test : check_active_connections whole home (new whole config) ≡ false
unfolding check_active_connections new
active_test = refl

abbrev admitted : List ℕ
admitted = if (admit_connection whole 0 home (new whole config)).0 then 0 ∷ [] else []

abbrev connected : RateLimiter whole
connected = (admit_connection whole 0 home (new whole config)).1

abbrev tried : RateLimiter whole
tried = (admit_handshake whole false 0 home connected).1

abbrev shaken_before : List ℕ
shaken_before = if (admit_handshake whole false 0 home connected).0 then 0 ∷ [] else []

abbrev shaken : List ℕ
shaken = if (admit_handshake whole true 0 home tried).0 then 0 ∷ shaken_before else shaken_before

admitted_per_minute_example : (count_in 0 admitted ≤ 2) × (count_in 0 shaken ≤ 1)
admitted_per_minute_example =
    admitted_per_minute whole config home refl (omega arith) (omega arith)
      (cleans
        (waits 70000 (shakes_hands true (shakes_hands false (connects (starts 0)))) (omega arith)))
      0

-- Of five messages the second cannot be decrypted.
message_burst_example :
    passed whole (true ∷ false ∷ true ∷ true ∷ true ∷ []) 9 0 (new whole config) ≡ (
      if leb (count_true (true ∷ false ∷ true ∷ true ∷ true ∷ [])) 3
      then count_true (true ∷ false ∷ true ∷ true ∷ true ∷ [])
      else 3)
unfolding capacity new
message_burst_example =
    message_burst whole whole_laws 9 0 config refl (omega arith) (omega arith) (omega arith)
      (true ∷ false ∷ true ∷ true ∷ true ∷ []) (new whole config) refl refl
