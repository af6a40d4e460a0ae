-- ===== src/Consumer/Callback.antt =====
-- The callback that counts a player's writes (src/BlsConsumer.cpp).
use bls.Base.{ℕ, ◌+◌, ◌-◌, ◌^◌, ◌<◌, ◌≡◌, ◌≢◌, some, List, ◌∷◌, arith}
use bls.Chunk.{Bucket}
use bls.Pool.{free_chunk_bucket}
use bls.World.{World, Write, AvBuffer, run, wait_video_slow_speed}
use bls.World.Writes.{complete, write_cb, consumer_write_chunk_cb}
use bls.Consumer.{video_action, slow}

-- When the oldest write of a client was one with the counting callback, its end takes the write
-- from the socket, gives up its reference to the bucket, and lowers by one the counter of the
-- player that the client has now. For a player that counts none, as one that replaced the player
-- which wrote, the counter becomes 2^32 - 1, and the next chunk that begins a message makes that
-- player, if it runs, wait as one that is too slow.
pub complete_counts :
    (client k : ℕ) (wr : Write) (rest : List Write) (w : World) (buffer : AvBuffer) (b : Bucket)
    → (w.socket client).pending ≡ wr ∷ rest
    → wr.custom ≡ some client
    → w.play_consumer client ≡ some k
    → (w.consumer k).chunk_in_buffer_num < 2 ^ 32
    → let u = complete client w in
      ((u.socket client).pending ≡ rest)
      × (u.pool ≡ free_chunk_bucket w.pool wr.bucket)
      × (0 < (w.consumer k).chunk_in_buffer_num
          → (u.consumer k).chunk_in_buffer_num + 1 ≡ (w.consumer k).chunk_in_buffer_num)
      × ((w.consumer k).chunk_in_buffer_num ≡ 0
          → ((u.consumer k).chunk_in_buffer_num ≡ 2 ^ 32 - 1)
            × ((w.consumer k).state ≡ run
                → b.format ≢ 3
                → video_action (u.consumer k) b buffer ≡ slow wait_video_slow_speed))
unfolding complete write_cb consumer_write_chunk_cb video_action
complete_counts client k wr rest w buffer b p q r h = ground arith
