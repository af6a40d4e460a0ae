-- ===== src/Protocol/Lifecycle.antt =====
-- The beginning and the end of a connection: the constructors of `RtmpProtocol` and `RtmpClient`,
-- `RtmpClient::hand_shake_finish`, `RtmpProtocol::~RtmpProtocol`, `bls_close_tcp_cb`
-- (src/RtmpProtocol.cpp, src/RtmpClient.cpp, src/utilities.cpp).
pub mod Started
pub mod Freed
use bls.Base.{ℕ, Bool, true, false, Option, none, some, List, [], ◌∷◌, Mem, ◌==◌, if◌then◌else◌}
use bls.Chunk.{default_chunk_size}
use bls.World.{World, Channel, M, ◌>>=◌, ◌>>◌, pure, update}
use bls.World.Buckets.{free_bucket, free_buckets}
use bls.Consumer.Lifecycle.{free_consumer}
use bls.Source.Streams.{collect_source}
use bls.Protocol.{Conn, P}
use bls.Protocol
use bls.Protocol.Receive.{start}

-- A new client with its protocol. The members that the constructors leave alone have whatever the
-- memory holds. There is no current chunk yet: 0 is no bucket's id.
abbrev pub new_conn : ℕ → Bool → ℕ → Mem → Conn
new_conn client has_server node_buf_len node_read_buf = record {
  client = client;
  channels = [];
  current_chunk = 0;
  current_channel = none;
  window_size = 0;
  acked_size = 0;
  total_recved_size = 0;
  total_recved_video_msg = 0;
  total_recved_audio_msg = 0;
  pong_get = true;
  publish_source = none;
  chunk_size = default_chunk_size;
  node_buf_len = node_buf_len;
  node_read_buf = node_read_buf;
  enable_video_up = false;
  is_closed = false;
  has_server = has_server;
  reading = none;
}

-- `play_consumer = NULL`
abbrev pub no_player : ℕ → World → World
no_player client w = record w { play_consumer = update w.play_consumer client none }

-- `hand_shake_finish`, with what JavaScript does in its callback for a new client.
unfoldable pub hand_shake_finish :
    P (Unit {0}) → ℕ → Bool → ℕ → Mem → World → Option (Unit {0} × Conn × World)
unfolding start
hand_shake_finish g_connect_cb client has_server node_buf_len node_read_buf w =
    Protocol.◌>>◌ start g_connect_cb (new_conn client has_server node_buf_len node_read_buf)
      (no_player client w)

-- `bls_delete(temp_channel)` for each channel.
abbrev pub delete_channels : List (ℕ × Channel) → M (Unit {0})
delete_channels [] = pure tt
delete_channels ((k, v) ∷ m) = do free_buckets v.chain; delete_channels m

abbrev pub free_player : Option ℕ → M (Unit {0})
free_player none = pure tt
free_player (some k) = free_consumer k

abbrev pub free_source : Option ℕ → M (List ℕ)
free_source none = pure []
free_source (some s) = collect_source s

-- `if (NULL != current_chunk)`
abbrev pub free_current : ℕ → M (Unit {0})
free_current id = if id == 0 then pure tt else free_bucket id

-- What the destructor does behind the call of JavaScript's callback.
abbrev pub delete_members : Conn → M (List ℕ)
delete_members c = do
  λ w. free_player (w.play_consumer c.client) w
  notified ← free_source c.publish_source
  delete_channels c.channels
  free_current c.current_chunk
  pure notified

-- The destructor of `RtmpProtocol`, which `bls_close_tcp_cb` calls once libuv has closed the socket
-- of a client that has a protocol. `node_on_close_cb` is what JavaScript does in its callback. The
-- result has the clients whose players are told that their stream ended.
unfoldable pub free_protocol : P (Unit {0}) → Conn → M (List ℕ)
unfolding free_consumer collect_source
free_protocol node_on_close_cb c w = elim (node_on_close_cb c w) [
  | none ↦ none
  | some (_, c', w') ↦ delete_members c' w'
]
