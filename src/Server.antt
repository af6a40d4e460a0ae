-- ===== src/Server.antt =====
-- The admission of clients (src/RtmpServer.cpp).
pub mod Admission
pub mod Startup
use bls.Base.{ℕ, ◌+◌, ◌%◌, ◌^◌, Bool, true, false, ltb, if◌then◌else◌}
use bls.World.{World, update_client_count}

-- What `RtmpServer` has of the configuration. `max_client_num` is an `int`, as its 32-bit pattern.
-- The member `client_count`, which the clients change too, is in the world.
pub record Server : Type 0 where
  pub max_client_num : ℕ

-- `a < b` on the patterns of `int`s.
abbrev pub signed_ltb : ℕ → ℕ → Bool
signed_ltb a b = ltb ((a + 2 ^ 31) % 2 ^ 32) ((b + 2 ^ 31) % 2 ^ 32)

-- `accept_client`: is there a new client? Otherwise its socket is closed. `accepted` is the result of
-- `uv_accept`.
unfoldable pub accept_client : Bool → Server → World → Bool × World
accept_client false s w = (false, w)
accept_client true s w =
    if signed_ltb s.max_client_num w.client_count
    then (false, w)
    else (true, update_client_count 1 w)
