-- ===== src/RateLimiter/Burst.antt =====
-- How many messages of a connection pass at one instant.
use obscura_proto.Common.{
  put, ℕ, zero, suc, ◌+◌, ◌-◌, ◌≤◌, ◌<◌, ◌^◌, ◌≡◌, ◌≢◌, refl, ap, ◌∙◌, inl, inr, List, [], ◌∷◌,
  Bool, ◌&&◌, true, false, not, ◌||◌, none, some, arith, ltb, leb, ◌==◌, ==_refl, if◌then◌else◌,
  Bool-cases, ltb→lt,
}
use obscura_proto.RateLimiter.Floats.{Double, DoubleLaws}
use obscura_proto.RateLimiter.{
  RateLimitConfig, RateLimiter, capacity, min, refill, bucket_at, check_message_rate,
  record_message,
}

module _ (d : Double) where
  -- A message as WsServerWrapper::on_message treats it: the check, and the record if the message
  -- passes it and is then decrypted and within the size limit, which `fits` says. The result is
  -- whether the message is dispatched.
  unfoldable pub pass_message : Bool → ℕ → ℕ → RateLimiter d → Bool × RateLimiter d
  pass_message fits now conn_id s =
      let (passes, s') = check_message_rate d now conn_id s in
      let accepted = passes && fits in
      (accepted, if accepted then record_message d now conn_id s' else s')

  -- How many messages in a row are dispatched.
  unfoldable pub passed : List Bool → ℕ → ℕ → RateLimiter d → ℕ
  passed [] now conn_id s = 0
  passed (fits ∷ later) now conn_id s =
      let (accepted, s') = pass_message fits now conn_id s in
      (if accepted then 1 else 0) + passed later now conn_id s'

abbrev pub count_true : List Bool → ℕ
count_true [] = 0
count_true (b ∷ bs) = (if b then 1 else 0) + count_true bs

abbrev at_most : ℕ → ℕ → ℕ
at_most k n = if leb n k then n else k

module _ (d : Double) (laws : DoubleLaws d) (now conn_id : ℕ) where
  -- At the time of the last refill nothing is added to a whole number of tokens.
  refill-now :
      (config : RateLimitConfig) (k : ℕ)
      → k ≤ capacity config
      → capacity config < 2 ^ 32
      → config.messages_per_second < 2 ^ 32
      → refill d config now (bucket_at d now (d.of_ℕ k)) ≡ bucket_at d now (d.of_ℕ k)
  unfolding refill bucket_at min
  refill-now config k fits cap32 rate32 =
      let elapsed : now - now ≡ 0 = omega arith in
      let more : ltb (capacity config) k ≡ false = ground arith in
      let sum : k + 0 ≡ k = omega arith in
      rw (
        elapsed,
        laws.div_zero 1000000 (omega arith) (omega arith),
        laws.mul_zero config.messages_per_second (omega arith),
        laws.add-of_ℕ k 0 (omega arith),
        sum,
        laws.lt-of_ℕ (capacity config) k (omega arith) (omega arith),
        more,
      )

  -- A connection with k tokens at this instant.
  record Has (config : RateLimitConfig) (k : ℕ) (s : RateLimiter d) : Type 0 where
    same_config : s.config ≡ config
    bucket : s.message_buckets conn_id ≡ some (bucket_at d now (d.of_ℕ k))

  module _ (config : RateLimitConfig) (on : config.enabled ≡ true)
      (some_rate : config.messages_per_second ≢ 0) (cap32 : capacity config < 2 ^ 32)
      (rate32 : config.messages_per_second < 2 ^ 32) where
    enabled : (s : RateLimiter d) → s.config ≡ config → s.config.enabled ≡ true
    enabled s e = ap (λ (c : RateLimitConfig). c.enabled) e ∙ on

    limited :
        (s : RateLimiter d)
        → s.config ≡ config
        → not s.config.enabled || s.config.messages_per_second == 0 ≡ false
    limited s e = rw e (ground arith)

    refills :
        (k : ℕ) (s : RateLimiter d)
        → k ≤ capacity config
        → s.config ≡ config
        → refill d s.config now (bucket_at d now (d.of_ℕ k)) ≡ bucket_at d now (d.of_ℕ k)
    refills k s fits e = rw e (refill-now config k fits cap32 rate32)

    checks :
        (k : ℕ) (s : RateLimiter d)
        → k ≤ capacity config
        → Has config k s
        → ((check_message_rate d now conn_id s).0 ≡ leb 1 k)
          × Has config k (check_message_rate d now conn_id s).1
    unfolding check_message_rate put bucket_at
    checks k s fits h =
        rw (limited s h.same_config, h.bucket, refills k s fits h.same_config)
          (
            laws.le-of_ℕ 1 k (omega arith) (omega arith),
            record { same_config = h.same_config; bucket = rw (==_refl conn_id) refl },
          )

    one_less : (k : ℕ) → suc k < 2 ^ 53 → d.sub (d.of_ℕ (suc k)) (d.of_ℕ 1) ≡ d.of_ℕ k
    one_less k small =
        let sum : suc k ≡ k + 1 = omega arith in rw sum (laws.sub-of_ℕ k 1 (omega arith))

    capacity-suc : (k : ℕ) × (capacity config ≡ suc k)
    unfolding capacity
    capacity-suc = elim (Bool-cases (ltb 0 config.burst_size)) [
      | inl set ↦ (config.burst_size - 1, rw set (let p = ltb→lt _ _ set in omega arith))
      | inr unset ↦ (config.messages_per_second - 1, rw unset (omega (arith, some_rate)))
    ]

    records :
        (k : ℕ) (s : RateLimiter d)
        → suc k ≤ capacity config
        → Has config (suc k) s
        → Has config k (record_message d now conn_id s)
    unfolding record_message put bucket_at
    records k s fits h =
        let enough : leb 1 (suc k) ≡ true = ground arith in
        rw
          (
            enabled s h.same_config,
            h.bucket,
            refills (suc k) s fits h.same_config,
            laws.le-of_ℕ 1 (suc k) (omega arith) (omega arith),
            enough,
          )
          (record {
            same_config = h.same_config;
            bucket = rw (==_refl conn_id, one_less k (omega arith)) refl;
          })

    records_first :
        (s : RateLimiter d)
        → s.config ≡ config
        → s.message_buckets conn_id ≡ none
        → (k : ℕ) × (capacity config ≡ suc k) × Has config k (record_message d now conn_id s)
    unfolding record_message put bucket_at
    records_first s e empty =
        let (k, size) = capacity-suc in
        let positive : ltb 0 (suc k) ≡ true = ground arith in
        (
          k,
          size,
          rw
              (
                enabled s e,
                empty,
                ap capacity e ∙ size,
                laws.lt-of_ℕ 0 (suc k) (omega arith) (omega arith),
                positive,
                one_less k (omega arith),
              )
              (record { same_config = e; bucket = rw (==_refl conn_id) refl }),
        )

    checks_first :
        (s : RateLimiter d)
        → s.config ≡ config
        → s.message_buckets conn_id ≡ none
        → check_message_rate d now conn_id s ≡ (true, s)
    unfolding check_message_rate
    checks_first s e empty = rw (limited s e, empty) refl

    passed-Has :
        (ms : List Bool) (k : ℕ) (s : RateLimiter d)
        → k ≤ capacity config
        → Has config k s
        → passed d ms now conn_id s ≡ at_most k (count_true ms)
    unfolding passed pass_message
    passed-Has [] k s fits h = ground arith
    passed-Has (false ∷ ms) k s fits h =
        let (seen, h') = checks k s fits h in
        let rest = passed-Has ms k _ fits h' in
        elim (Bool-cases (leb 1 k)) [
          | inl enough ↦ rw (seen, enough, rest) (ground arith)
          | inr none_left ↦ rw (seen, none_left, rest) (ground arith)
        ]
    passed-Has (true ∷ ms) zero s fits h =
        let (seen, h') = checks zero s fits h in
        let none_left : leb 1 0 ≡ false = ground arith in
        let rest = passed-Has ms zero _ fits h' in rw (seen, none_left, rest) (ground arith)
    passed-Has (true ∷ ms) (suc k) s fits h =
        let (seen, h') = checks (suc k) s fits h in
        let enough : leb 1 (suc k) ≡ true = ground arith in
        let rest = passed-Has ms k _ (omega arith) (records k _ fits h') in
        rw (seen, enough, rest) (ground arith)

    -- Let rate limiting be on with a positive rate, and the rate and the bucket size 32-bit
    -- numbers. Of messages at one instant of a connection without a bucket, those that cannot be
    -- decrypted or are too large use up nothing, and of the others as many are dispatched as the
    -- bucket size (the burst size, or the rate if no burst is set), and all if there are not more.
    pub message_burst :
        (ms : List Bool) (s : RateLimiter d)
        → s.config ≡ config
        → s.message_buckets conn_id ≡ none
        → passed d ms now conn_id s ≡ at_most (capacity config) (count_true ms)
    unfolding passed pass_message
    message_burst [] s e empty = ground arith
    message_burst (false ∷ ms) s e empty =
        let rest = message_burst ms s e empty in rw (checks_first s e empty, rest) (ground arith)
    message_burst (true ∷ ms) s e empty =
        let (k, size, h) = records_first s e empty in
        let rest = passed-Has ms k _ (omega (arith, size)) h in
        rw (checks_first s e empty, rest, size) (ground arith)
