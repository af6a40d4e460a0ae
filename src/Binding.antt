-- ===== src/Binding.antt =====
-- What JavaScript can call on a client (src/addon.cpp). The addresses and times that the functions
-- get from the allocator and the clock are arguments, and so are the values of `info[i]`.
pub mod Log
pub mod Guards
pub mod Streams
pub mod Messages
use bls.Base.{ℕ, ◌%◌, ◌^◌, Bool, true, false, Option, none, some, List, [], Mem, if◌then◌else◌}
use bls.World.{World, update}
use bls.World.Buckets.{free_buckets}
use bls.World.Writes.{write_chunk_chain}
use bls.World.Encode.{encode_buf_to_chunk_chain}
use bls.Consumer.Lifecycle.{init_consumer, free_consumer}
use bls.Source.Joining.{add_consumer}
use bls.Source.Lifecycle.{copy_aac_sh_data, copy_avc_sh_data}
use bls.Source.Streams.{get_publish_source, get_play_source, collect_source}
use bls.Protocol.{Conn, P, ◌>>=◌, ◌>>◌, pure, conn, world, modify, lift}
use bls.Protocol.Client
use bls.Protocol.Control

-- "client already closed, return!"
abbrev pub when_open : {A : Type 0} → A → P A → P A
when_open a m c w = if c.is_closed then some (a, c, w) else m c w

-- `bind_read_write_buf`, on what `info[1]` is: a buffer's length and bytes, or no buffer. The other
-- two buffers are written to, and never read, by the code here.
unfoldable pub bind_read_write_buf : Option (ℕ × Mem) → P (Unit {0})
bind_read_write_buf none = pure tt
bind_read_write_buf (some (len, bytes)) =
    modify λ c. record c { node_buf_len = len; node_read_buf = bytes }

unfoldable pub enable_throwup_av : P (Unit {0})
enable_throwup_av = modify λ c. record c { enable_video_up = true }

unfoldable pub disable_throwup_av : P (Unit {0})
disable_throwup_av = modify λ c. record c { enable_video_up = false }

-- `get_aac_sh` and `get_avc_sh`, with the bytes that are copied. `none` is the result -1.
abbrev pub from_source : (World → ℕ → Option (List ℕ)) → Option ℕ → World → Option (List ℕ)
from_source copy none w = none
from_source copy (some s) w = copy w s

unfoldable pub get_aac_sh : P (Option (List ℕ))
unfolding copy_aac_sh_data
get_aac_sh = do c ← conn; w ← world; pure (from_source copy_aac_sh_data c.publish_source w)

unfoldable pub get_avc_sh : P (Option (List ℕ))
unfolding copy_avc_sh_data
get_avc_sh = do c ← conn; w ← world; pure (from_source copy_avc_sh_data c.publish_source w)

abbrev pub chunk_id_or_3 : Option ℕ → ℕ
chunk_id_or_3 none = 3
chunk_id_or_3 (some id) = id

-- `write_message_buf`. `info[5]` is there or not; `type_id` is a `uint8_t`. The chain goes at the end
-- of the function.
unfoldable pub write_message_buf : List ℕ → ℕ → ℕ → ℕ → Option ℕ → P (Unit {0})
unfolding encode_buf_to_chunk_chain write_chunk_chain
write_message_buf buf stream_id timestamp type_id chunk_id = when_open tt (do
  c ← conn
  temp_chain ←
      lift
        (encode_buf_to_chunk_chain buf stream_id timestamp (type_id % 256) (chunk_id_or_3 chunk_id))
  left ← lift (write_chunk_chain c.client temp_chain false)
  lift (free_buckets left))

-- `publish_stream`. An earlier source of the client is no longer referred to.
abbrev pub publish_from : Option ℕ → P Bool
publish_from none = pure false
publish_from (some s) = do modify (λ c. record c { publish_source = some s }); pure true

unfoldable pub publish_stream : ℕ → P Bool
unfolding get_publish_source
publish_stream stream_name =
    when_open false (do source ← lift (get_publish_source stream_name); publish_from source)

-- `unpublish_stream`, with the clients that are told.
abbrev pub unpublish_from : Option ℕ → P (List ℕ)
unpublish_from none = pure []
unpublish_from (some s) = do
  notified ← lift (collect_source s)
  modify (λ c. record c { publish_source = none })
  pure notified

unfoldable pub unpublish_stream : P (List ℕ)
unfolding collect_source
unpublish_stream = when_open [] (do c ← conn; unpublish_from c.publish_source)

-- `send_stream_eof` and `send_stream_begin`, on a client that may be closed.
unfoldable pub send_stream_eof : P (Unit {0})
unfolding Control.send_stream_eof
send_stream_eof = Control.send_stream_eof

unfoldable pub send_stream_begin : P (Unit {0})
unfolding Control.send_stream_begin
send_stream_begin = Control.send_stream_begin

-- `protocol->play_consumer = ...`
abbrev pub set_play_consumer : Option ℕ → P (Unit {0})
set_play_consumer k c w =
    some (tt, c, record w { play_consumer = update w.play_consumer c.client k })

module _ (add_time : ℕ → ℕ → ℕ) where
  -- The player's address is `k`.
  abbrev pub play_from : ℕ → ℕ → ℕ → Option ℕ → P (Unit {0})
  play_from k stream_id stream_name none = pure tt
  play_from k stream_id stream_name (some s) = do
    c ← conn
    w ← world
    lift (
        init_consumer k c.client stream_name stream_id (w.source s).video_chunkid
          (w.source s).audio_chunkid)
    lift (add_consumer add_time s k)
    set_play_consumer (some k)

  unfoldable pub play_stream : ℕ → ℕ → ℕ → P (Unit {0})
  unfolding Control.send_stream_begin get_play_source init_consumer add_consumer
  play_stream k stream_id stream_name = when_open tt (do
    Control.send_stream_begin
    w ← world
    play_from k stream_id stream_name (get_play_source stream_name w))

abbrev pub unplay_from : Option ℕ → P (Unit {0})
unplay_from none = pure tt
unplay_from (some k) = do lift (free_consumer k); set_play_consumer none

unfoldable pub unplay_stream : P (Unit {0})
unfolding free_consumer
unplay_stream = when_open tt (do c ← conn; w ← world; unplay_from (w.play_consumer c.client))

unfoldable pub close_client : P (Unit {0})
unfolding Client.close
close_client = when_open tt Client.close

unfoldable pub send_ping_request : ℕ → P (Unit {0})
unfolding Control.send_ping_request
send_ping_request now = when_open tt (Control.send_ping_request now)
