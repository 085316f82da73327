-- ===== src/Stream/Tests.antt =====
-- The packets of a stream with id 5.
use obscura_proto.Common.{◌<◌, ◌^◌, ◌≡◌, refl, [], ◌∷◌, true, none, arith}
use obscura_proto.Stream.{Stream, new, dispatch, data_event, end_event}

abbrev five : Stream
five = new 5 none

-- Without a handler nothing is called.
dispatch_test : dispatch end_event five ≡ []
unfolding dispatch new
dispatch_test = refl

handler_test :
    dispatch (data_event (1 ∷ [])) (record five { on_data = true }) ≡ data_event (1 ∷ []) ∷ []
unfolding dispatch new
handler_test = refl

five_small : five.stream_id < 2 ^ 32
unfolding new
five_small = omega arith
