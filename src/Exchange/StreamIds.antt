-- ===== src/Exchange/StreamIds.antt =====
-- The ids of the streams that the two ends of a connection start.
use obscura_proto.Common.{
  ℕ, ◌+◌, ◌*◌, ◌%◌, ◌^◌, ◌<◌, ◌≡◌, ◌≢◌, refl, ap, ◌∙◌, ◌⊎◌, inl, inr, List, none, some, arith,
}
use obscura_proto.Errors.{Result, ok, err}
use obscura_proto.Endian.{Host}
use obscura_proto.Crypto.Libsodium.{Sodium}
use obscura_proto.RateLimiter.Floats.{Double}
use obscura_proto.Stream
use obscura_proto.Stream.{Stream}
use obscura_proto.WsServer.State.{Server}
use obscura_proto.WsServer.Sending.{
  outgoing_stream_id as server_stream_id, start_stream as server_start_stream,
  start_stream_with as server_start_stream_with, with_stream as server_with_stream,
}
use obscura_proto.WsClient.State.{Client, outgoing_stream_id}
use obscura_proto.WsClient.Sending.{start_stream, start_stream_with, with_stream}

module _ (sodium : Sodium) (h : Host) where
  with_stream-ok :
      (x y : Stream) (r : Result (Unit {0}) × Client) → (with_stream sodium h x r).0 ≡ ok y → y ≡ x
  with_stream-ok x y (ok u, c) e = cc
  with_stream-ok x y (err z, c) e = cc

  started_id :
      (nonce : List ℕ) (c : Client) (y : Stream)
      → (start_stream sodium h nonce c).0 ≡ ok y
      → y.stream_id ≡ outgoing_stream_id c
  unfolding start_stream
  started_id nonce c y e =
      let same = with_stream-ok (Stream.new (outgoing_stream_id c) none) y _ e in
      ap (λ (s : Stream). s.stream_id) same ∙ (unfold Stream.new in refl)

  started_with_id :
      (nonce : List ℕ) (op : ℕ) (c : Client) (y : Stream)
      → (start_stream_with sodium h nonce op c).0 ≡ ok y
      → y.stream_id ≡ outgoing_stream_id c
  unfolding start_stream_with
  started_with_id nonce op c y e =
      let same = with_stream-ok (Stream.new (outgoing_stream_id c) (some op)) y _ e in
      ap (λ (s : Stream). s.stream_id) same ∙ (unfold Stream.new in refl)

  module _ (d : Double) where
    server_with_stream-ok :
        (x y : Stream) (r : Result (Unit {0}) × Server d)
        → (server_with_stream sodium d h x r).0 ≡ ok y
        → y ≡ x
    server_with_stream-ok x y (ok u, c) e = cc
    server_with_stream-ok x y (err z, c) e = cc

    server_started_id :
        (nonce : List ℕ) (hdl : ℕ) (s : Server d) (y : Stream)
        → (server_start_stream sodium d h nonce hdl s).0 ≡ ok y
        → y.stream_id ≡ server_stream_id sodium d h s
    unfolding server_start_stream
    server_started_id nonce hdl s y e =
        let same = server_with_stream-ok (Stream.new (server_stream_id sodium d h s) none) y _ e in
        ap (λ (z : Stream). z.stream_id) same ∙ (unfold Stream.new in refl)

    server_started_with_id :
        (nonce : List ℕ) (hdl op : ℕ) (s : Server d) (y : Stream)
        → (server_start_stream_with sodium d h nonce hdl op s).0 ≡ ok y
        → y.stream_id ≡ server_stream_id sodium d h s
    unfolding server_start_stream_with
    server_started_with_id nonce hdl op s y e =
        let same =
          server_with_stream-ok (Stream.new (server_stream_id sodium d h s) (some op)) y _ e in
        ap (λ (z : Stream). z.stream_id) same ∙ (unfold Stream.new in refl)

-- The client starts this stream, with an operation code or without.
abbrev pub Starts : Sodium → Host → List ℕ → ℕ → Client → Stream → Type 0
Starts sodium h nonce op c x =
    ((start_stream sodium h nonce c).0 ≡ ok x) ⊎ ((start_stream_with sodium h nonce op c).0 ≡ ok x)

-- The server does.
abbrev pub ServerStarts :
    (sodium : Sodium) (d : Double) → Host → List ℕ → ℕ → ℕ → Server d → Stream → Type 0
ServerStarts sodium d h nonce hdl op s y =
    ((server_start_stream sodium d h nonce hdl s).0 ≡ ok y)
    ⊎ ((server_start_stream_with sodium d h nonce hdl op s).0 ≡ ok y)

-- A stream that a client starts and one that a server starts, either with an operation code or
-- without, never have the same id, however many streams either has started, also where the
-- counters wrap.
pub start_stream-ne :
    (sodium : Sodium) (d : Double) (h h' : Host) (nonce nonce' : List ℕ) (hdl op op' : ℕ)
    (c : Client) (s : Server d) (x y : Stream)
    → Starts sodium h nonce op c x
    → ServerStarts sodium d h' nonce' hdl op' s y
    → x.stream_id ≢ y.stream_id
start_stream-ne sodium d h h' nonce nonce' hdl op op' c s x y ex ey e =
    let a : x.stream_id ≡ outgoing_stream_id c = elim ex [
      | inl plain ↦ started_id sodium h nonce c x plain
      | inr coded ↦ started_with_id sodium h nonce op c x coded
    ] in
    let b : y.stream_id ≡ server_stream_id sodium d h' s = elim ey [
      | inl plain ↦ server_started_id sodium h' d nonce' hdl s y plain
      | inr coded ↦ server_started_with_id sodium h' d nonce' hdl op' s y coded
    ] in
    let v : outgoing_stream_id c ≡ c.next_outgoing_stream_id * 2 % 2 ^ 32 =
      unfold outgoing_stream_id in refl in
    let u : server_stream_id sodium d h' s ≡ (s.next_outgoing_stream_id * 2 % 2 ^ 32 + 1) % 2 ^ 32 =
      unfold server_stream_id in refl in
    absurd (omega arith)

-- Two streams that a client starts, when it has started different numbers of streams below
-- 2 ^ 31 before, have different ids.
pub start_stream-fresh :
    (sodium : Sodium) (h h' : Host) (nonce nonce' : List ℕ) (c c' : Client) (x x' : Stream)
    → (start_stream sodium h nonce c).0 ≡ ok x
    → (start_stream sodium h' nonce' c').0 ≡ ok x'
    → c.next_outgoing_stream_id < 2 ^ 31
    → c'.next_outgoing_stream_id < 2 ^ 31
    → c.next_outgoing_stream_id ≢ c'.next_outgoing_stream_id
    → x.stream_id ≢ x'.stream_id
start_stream-fresh sodium h h' nonce nonce' c c' x x' ex ex' small small' apart e =
    let a = started_id sodium h nonce c x ex in
    let a' = started_id sodium h' nonce' c' x' ex' in
    let v : outgoing_stream_id c ≡ c.next_outgoing_stream_id * 2 % 2 ^ 32 =
      unfold outgoing_stream_id in refl in
    let v' : outgoing_stream_id c' ≡ c'.next_outgoing_stream_id * 2 % 2 ^ 32 =
      unfold outgoing_stream_id in refl in
    apart (omega arith)
