-- ===== src/Examples/Players.antt =====
-- The players, the cached group and the callbacks at concrete chunks.
use bls.Base.{
  ℕ, ◌+◌, ◌-◌, ◌^◌, ◌<◌, ◌≤◌, ◌≡◌, ◌≢◌, refl, true, false, some, none, List, [], ◌∷◌, ◌++◌, arith,
  Returns, ◌⊎◌,
}
use bls.Chunk.{chunk_is_video_sh, chunk_is_audio_sh}
use bls.Pool.{free_chunk_bucket}
use bls.World.{World, Channel, Write, both, run, wait_metadata, wait_video_slow_speed}
use bls.World.Writes.{complete}
use bls.Consumer.{video_action, audio_action, sends, slow}
use bls.Consumer.Steps.{
  AllAre, video_trace, audio_trace, video_message_whole, audio_message_whole, Move, step_video,
  step_audio, step-Move,
}
use bls.Consumer.Slow.{
  Happening, video, audio, write_ends, Silent, IsWaiting, Resumed, sees_all, slow_video_recovers,
}
use bls.Consumer.Callback.{complete_counts}
use bls.Source.{add_msg_to_gop, on_video_msg, on_audio_msg}
use bls.Source.Gop.{cache_of, begins_group, add_msg_to_gop_lem, sequence_header_leaves_no_head}
use bls.Examples.Data.{
  busy_pool, key_chunk, inter_chunk, next_chunk, sh_chunk, player, ready_cache, empty_cache,
  world_of, channel_of, raw_pool,
}

video_message_whole_example :
    AllAre
      (sends (video_action (player wait_metadata 0) key_chunk ready_cache))
      (video_trace (player wait_metadata 0) ready_cache (key_chunk ∷ next_chunk ∷ next_chunk ∷ []))
video_message_whole_example =
    video_message_whole (player wait_metadata 0) ready_cache key_chunk
      (next_chunk ∷ next_chunk ∷ []) (refl, (refl, tt))

audio_message_whole_example :
    AllAre
      (sends (audio_action (player run 401) inter_chunk ready_cache))
      (audio_trace (player run 401) ready_cache (inter_chunk ∷ next_chunk ∷ []))
audio_message_whole_example =
    audio_message_whole (player run 401) ready_cache inter_chunk (next_chunk ∷ []) (refl, tt)

step-Move_example :
    Move wait_metadata (step_video (player wait_metadata 0) ready_cache key_chunk).state
    × Move wait_metadata (step_audio (player wait_metadata 0) ready_cache key_chunk).state
step-Move_example = step-Move (player wait_metadata 0) ready_cache key_chunk

abbrev counting_write : Write
counting_write = record { bucket = 2; part = both; custom = some 4 }

abbrev writing : World
writing = world_of (busy_pool 2) (counting_write ∷ []) ready_cache

complete_counts_example :
    let u = complete 4 writing in
    ((u.socket 4).pending ≡ [])
    × (u.pool ≡ free_chunk_bucket writing.pool 2)
    × (0 < (writing.consumer 5).chunk_in_buffer_num
        → (u.consumer 5).chunk_in_buffer_num + 1 ≡ (writing.consumer 5).chunk_in_buffer_num)
    × ((writing.consumer 5).chunk_in_buffer_num ≡ 0
        → ((u.consumer 5).chunk_in_buffer_num ≡ 2 ^ 32 - 1)
          × ((writing.consumer 5).state ≡ run
              → key_chunk.format ≢ 3
              → video_action (u.consumer 5) key_chunk ready_cache ≡ slow wait_video_slow_speed))
complete_counts_example =
    complete_counts 4 5 counting_write [] writing ready_cache key_chunk refl refl refl (omega arith)

-- A world with a group of one message, which came in bucket 1; every other bucket is a chunk that
-- does not begin a group.
abbrev with_group : World
with_group =
    world_of (record raw_pool { bucket = λ _. inter_chunk }) []
      (record empty_cache { gop = some (channel_of (1 ∷ [])) })

add_msg_to_gop_lem_example :
    Returns (add_msg_to_gop 0 (channel_of (2 ∷ 3 ∷ [])) with_group) λ (r : List ℕ × World).
      ((cache_of r.1 0).gop_counter ≤ 1000)
      × (begins_group with_group 2 ≡ true
          → (r.0 ≡ [])
            × ((cache_of r.1 0).gop ≡ some (channel_of (2 ∷ 3 ∷ [])))
            × ((cache_of r.1 0).gop_counter ≡ 0))
      × (begins_group with_group 2 ≡ false
          → (cache_of with_group 0).gop ≡ none
          → (r.0 ≡ 2 ∷ 3 ∷ []) × ((cache_of r.1 0).gop ≡ none))
      × ((g : Channel)
          → begins_group with_group 2 ≡ false
          → (cache_of with_group 0).gop ≡ some g
          → (r.0 ≡ [])
            × ((cache_of with_group 0).gop_counter < 1000
                → (cache_of r.1 0).gop ≡ some (record g { chain = g.chain ++ 2 ∷ 3 ∷ [] }))
            × ((cache_of with_group 0).gop_counter ≡ 1000
                → ((cache_of r.1 0).gop ≡ none) × ((cache_of r.1 0).gop_counter ≡ 0)))
add_msg_to_gop_lem_example =
    add_msg_to_gop_lem 0 (channel_of (2 ∷ 3 ∷ [])) with_group 2 (3 ∷ []) refl (omega arith)

abbrev with_header : World
with_header = world_of (record raw_pool { bucket = λ _. sh_chunk }) [] empty_cache

sequence_header_leaves_no_head_example :
    (chunk_is_video_sh (with_header.pool.bucket 2) ≡ true
      → on_video_msg 0 (channel_of (2 ∷ [])) with_header ≡ none)
    × (chunk_is_audio_sh (with_header.pool.bucket 2) ≡ true
        → on_audio_msg 0 (channel_of (2 ∷ [])) with_header ≡ none)
sequence_header_leaves_no_head_example =
    sequence_header_leaves_no_head 0 (channel_of (2 ∷ [])) with_header 2 [] refl

-- Other frames and audio come, a write ends, and then a key frame.
abbrev stream_goes_on : List Happening
stream_goes_on =
    video ready_cache inter_chunk
    ∷ audio ready_cache key_chunk
    ∷ video ready_cache key_chunk
    ∷ write_ends
    ∷ video ready_cache key_chunk
    ∷ []

slow_video_recovers_example :
    (Silent stream_goes_on (player wait_video_slow_speed 400)
      × IsWaiting (sees_all stream_goes_on (player wait_video_slow_speed 400)))
    ⊎ Resumed stream_goes_on (player wait_video_slow_speed 400)
slow_video_recovers_example =
    slow_video_recovers stream_goes_on (player wait_video_slow_speed 400) refl
