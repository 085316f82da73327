-- ===== src/WsClient/Watchdog.antt =====
-- watchdog_loop of src/ws_client.cpp: what a round does, and that the loop comes to a wait.
use obscura_proto.Common.{
  ℕ, ◌≤◌, ◌<◌, ◌≡◌, refl, ◌⊎◌, inl, inr, List, [], ◌∷◌, false, none, some, arith, ltb, leb,
  Bool-cases, ltb→lt, ltb→le, leb→le, length, All,
}
use obscura_proto.WsClient.Requests.{
  Requests, Deadline, Round, waits, waits_until, expires, complete, expire_one, expire_all, expire,
  earliest_from, round_for, watchdog_round,
}

abbrev pub Has : ℕ → List Deadline → Type 0
Has t [] = ⊥
Has t (d ∷ ds) = (d.time ≡ t) ⊎ Has t ds

-- The result of the search from a first deadline.
abbrev IsEarliest : ℕ → ℕ → List Deadline → Type 0
IsEarliest t e ds = (t ≤ e) × All (λ d. t ≤ d.time) ds × ((t ≡ e) ⊎ Has t ds)

earliest_lem :
    (e : ℕ) (ds : List Deadline)
    → (t : ℕ) × (earliest_from (some e) ds ≡ some t) × IsEarliest t e ds
unfolding earliest_from
earliest_lem e [] = (e, refl, (omega arith, tt, inl refl))
earliest_lem e (d ∷ ds) = elim (Bool-cases (ltb d.time e)) [
  | inl less ↦
      let (t, found, (below, all, where_from)) = earliest_lem d.time ds in
      let before = ltb→lt d.time e less in
      (
        t,
        rw less found,
        (
          omega arith,
          (below, all),
          elim where_from [ inl same ↦ inr (inl (omega arith)) | inr later ↦ inr (inr later) ],
        ),
      )
  | inr more ↦
      let (t, found, (below, all, where_from)) = earliest_lem e ds in
      let after = ltb→le d.time e more in
      (
        t,
        rw more found,
        (
          below,
          (omega arith, all),
          elim where_from [ inl same ↦ inl same | inr later ↦ inr (inr later) ],
        ),
      )
]

-- The deadlines that are left lie ahead, and there are not more of them.
expire_all-left :
    (now : ℕ) (ds : List Deadline) (s : Requests)
    → s.request_deadlines ≡ []
    → All (λ d. now < d.time) (expire_all now ds s).request_deadlines
      × (length (expire_all now ds s).request_deadlines ≤ length ds)
unfolding expire_all expire_one
expire_all-left now [] s fresh = rw fresh (tt, omega arith)
expire_all-left now (d ∷ ds) s fresh =
    let (all, few) = expire_all-left now ds s fresh in
    elim (Bool-cases (leb d.time now)) [
      | inl passed ↦ rw passed (unfold complete in (all, omega arith))
      | inr early ↦ rw early ((ground arith, all), omega arith)
    ]

expire_all-fewer :
    (now t : ℕ) (ds : List Deadline) (s : Requests)
    → s.request_deadlines ≡ []
    → Has t ds
    → t ≤ now
    → length (expire_all now ds s).request_deadlines < length ds
unfolding expire_all expire_one
expire_all-fewer now t [] s fresh has passed = absurd has
expire_all-fewer now t (d ∷ ds) s fresh has passed =
    let few = (expire_all-left now ds s fresh).1 in
    elim (Bool-cases (leb d.time now)) [
      | inl out ↦ rw out (unfold complete in omega arith)
      | inr early ↦ elim has [
        | inl here ↦ absurd (ground arith)
        | inr later ↦ rw early (omega (arith, expire_all-fewer now t ds s fresh later passed))
      ]
    ]

-- Whether a round waits.
abbrev pub IsWait : Round → Type 0
IsWait waits = Unit {0}
IsWait (waits_until t) = Unit {0}
IsWait (expires s) = ⊥

abbrev pub IsRound : ℕ → Requests → Round → Type 0
IsRound now s waits = s.request_deadlines ≡ []
IsRound now s (waits_until t) =
    (now < t) × All (λ d. t ≤ d.time) s.request_deadlines × Has t s.request_deadlines
IsRound now s (expires s') =
    (s' ≡ expire now s)
    × All (λ d. now < d.time) s'.request_deadlines
    × (length s'.request_deadlines < length s.request_deadlines)
    × IsWait (watchdog_round now s')

waits-ahead :
    (now : ℕ) (ds : List Deadline) (s : Requests)
    → All (λ d. now < d.time) ds
    → IsWait (round_for now (earliest_from none ds) s)
unfolding earliest_from round_for
waits-ahead now [] s ahead = tt
waits-ahead now (d ∷ ds) s (first, ahead) =
    let (t, found, (below, all, where_from)) = earliest_lem d.time ds in
    let later : leb t now ≡ false = elim where_from [
      | inl same ↦ ground arith
      | inr held ↦ ahead_of now t ds ahead held
    ] in
    rw (found, later) tt
  where
    ahead_of :
        (now t : ℕ) (ds : List Deadline) → All (λ d. now < d.time) ds → Has t ds → leb t now ≡ false
    ahead_of now t [] ahead held = absurd held
    ahead_of now t (d ∷ ds) (first, ahead) (inl same) = ground arith
    ahead_of now t (d ∷ ds) (first, ahead) (inr later) = ahead_of now t ds ahead later

round_for-IsRound :
    (now : ℕ) (ds : List Deadline) (s : Requests)
    → s.request_deadlines ≡ ds
    → IsRound now s (round_for now (earliest_from none ds) s)
unfolding round_for earliest_from
round_for-IsRound now [] s same = same
round_for-IsRound now (d ∷ ds) s same =
    let (t, found, (below, all, where_from)) = earliest_lem d.time ds in
    let has : Has t (d ∷ ds) = elim where_from [
      | inl e ↦ inl (omega arith)
      | inr later ↦ inr later
    ] in
    elim (Bool-cases (leb t now)) [
      | inr early ↦ rw (found, early, same) (ground arith, (below, all), has)
      | inl passed ↦
          let empty = record s { request_deadlines = [] } in
          let left = expire_all-left now (d ∷ ds) empty refl in
          let fewer = expire_all-fewer now t (d ∷ ds) empty refl has (leb→le t now passed) in
          rw (found, passed)
            (
              refl,
              unfold expire in rw same left.0,
              unfold expire in rw same fewer,
              unfold watchdog_round in
                  waits-ahead now (expire now s).request_deadlines (expire now s)
                    (unfold expire in rw same left.0),
            )
    ]

-- A round of the watchdog waits to be notified only if there is no deadline; it waits until the
-- earliest one, which lies ahead; or it expires requests: then fewer deadlines are left, all of
-- them ahead, and the next round at that time waits. So the loop never spins.
pub watchdog_round-IsRound : (now : ℕ) (s : Requests) → IsRound now s (watchdog_round now s)
unfolding watchdog_round
watchdog_round-IsRound now s = round_for-IsRound now s.request_deadlines s refl
