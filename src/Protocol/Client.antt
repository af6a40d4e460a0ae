-- ===== src/Protocol/Client.antt =====
-- `RtmpClient::close`, `read_n` and the read callback (src/RtmpClient.cpp).
pub mod Closing
use bls.Base.{
  ℕ, ◌+◌, ◌-◌, ◌%◌, ◌^◌, Bool, true, false, Option, none, some, List, [], ◌∷◌, leb, ltb, ◌==◌,
  if◌then◌else◌, length, poke,
}
use bls.Chunk.{Bucket}
use bls.Pool.{put_bucket}
use bls.World.{World, Consumer, end, update, update_client_count}
use bls.Protocol.{
  Conn, Reading, Area, in_header, in_payload, P, ◌>>=◌, ◌>>◌, pure, conn, world, modify, lift,
  check,
}

-- "set consumer state to end, avoid be sent video"
abbrev pub end_consumer : Option ℕ → World → World
end_consumer none w = w
end_consumer (some k) w = record w {
  consumer = update w.consumer k (record (w.consumer k) { state = end });
}

-- `BlsSocket::close`
abbrev pub close_socket : ℕ → World → World
close_socket client w = record w {
  socket = update w.socket client (record (w.socket client) { is_open = false });
}

-- `update_client_count(-1)`
abbrev pub count_down : Bool → World → World
count_down false w = w
count_down true w = update_client_count (2 ^ 32 - 1) w

-- `RtmpClient::close`, of a client that has a protocol. A second call does nothing.
unfoldable pub close : P (Unit {0})
close c w =
    if c.is_closed
    then some (tt, c, w)
    else some (
      tt,
      record c { is_closed = true; reading = none },
      count_down c.has_server (close_socket c.client (end_consumer (w.play_consumer c.client) w)),
    )

-- `RtmpClient::close`, of a client that is open and has no protocol yet.
unfoldable pub close_early : ℕ → Bool → World → World
close_early client has_server w = count_down has_server (close_socket client w)

-- `RtmpClient::read_n`: nothing is registered on a closed client, and a read of nothing closes it.
unfoldable pub read_n : ℕ → Area → ℕ → ℕ → P (Unit {0})
unfolding close
read_n bucket area offset n =
    if n == 0
    then close
    else modify λ c. record c {
      reading =
          if c.is_closed
          then none
          else some (record {
            bucket = bucket;
            area = area;
            offset = offset;
            expect_len = n;
            recved_len = 0;
          });
    }

-- The size of the memory at a read's target.
abbrev pub area_size : World → Area → ℕ
area_size w in_header = 18
area_size w in_payload = w.pool.payload_size

abbrev pub store : Area → ℕ → List ℕ → Bucket → Bucket
store in_header at bytes b = record b { header = poke b.header at bytes }
store in_payload at bytes b = record b { payload = poke b.payload at bytes }
