-- ===== src/RateLimiter/Tidy.antt =====
-- What a cleanup leaves of the windows of one address.
use obscura_proto.Common.{
  ℕ, ◌≡◌, refl, List, [], ◌∷◌, Bool, true, false, ◌&&◌, Option, none, some, ◌==◌, if◌then◌else◌,
}
use obscura_proto.RateLimiter.{clean, clean_front, PerIpState, is_empty, entry, tidy}

-- What the loop of cleanup keeps of a state with these windows.
abbrev kept : Bool → List ℕ → List ℕ → ℕ → PerIpState
kept b cs hs n = entry (
    if b && is_empty cs && is_empty hs
    then none
    else some (record {
      connections = record { timestamps_ms = cs };
      handshakes = record { timestamps_ms = hs };
      active_connections = n;
    }))

kept-windows :
    (b : Bool) (cs hs : List ℕ) (n : ℕ)
    → ((kept b cs hs n).connections ≡ record { timestamps_ms = cs })
      × ((kept b cs hs n).handshakes ≡ record { timestamps_ms = hs })
kept-windows false cs hs n = (refl, refl)
kept-windows true [] [] n = (refl, refl)
kept-windows true [] (h ∷ hs) n = (refl, refl)
kept-windows true (c ∷ cs) hs n = (refl, refl)

-- A cleanup removes an entry only if both its windows are empty after it.
pub tidy-connections :
    (now : ℕ) (o : Option PerIpState)
    → (entry (tidy now o)).connections ≡ clean now 60000 (entry o).connections
unfolding tidy clean clean_front
tidy-connections now none = refl
tidy-connections now (some state) =
    (kept-windows (state.active_connections == 0)
      (clean_front now 60000 state.connections.timestamps_ms)
      (clean_front now 60000 state.handshakes.timestamps_ms) state.active_connections).0

pub tidy-handshakes :
    (now : ℕ) (o : Option PerIpState)
    → (entry (tidy now o)).handshakes ≡ clean now 60000 (entry o).handshakes
unfolding tidy clean clean_front
tidy-handshakes now none = refl
tidy-handshakes now (some state) =
    (kept-windows (state.active_connections == 0)
      (clean_front now 60000 state.connections.timestamps_ms)
      (clean_front now 60000 state.handshakes.timestamps_ms) state.active_connections).1
