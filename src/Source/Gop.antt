-- ===== src/Source/Gop.antt =====
-- The cached group of pictures (src/BlsSource.cpp).
use bls.Base.{
  ℕ, ◌≤◌, ◌<◌, ◌≡◌, Bool, true, false, not, ◌&&◌, none, some, List, [], ◌∷◌, ◌++◌, arith, Returns,
}
use bls.Chunk.{chunk_is_keyframe, chunk_is_video_sh, chunk_is_audio_sh}
use bls.World.{World, Channel, AvBuffer}
use bls.Source.{add_msg_to_gop, clear_gop, on_video_msg, on_audio_msg}

abbrev pub cache_of : World → ℕ → AvBuffer
cache_of w s = (w.source s).key_cache

-- A message that begins a group: a key frame that is no sequence header.
abbrev pub begins_group : World → ℕ → Bool
begins_group w id =
    chunk_is_keyframe (w.pool.bucket id) && not (chunk_is_video_sh (w.pool.bucket id))

-- A message with a chunk is never refused. If it begins a group, it is the whole new group, and
-- the counter starts at 0. Otherwise it stays with its channel if no group is cached; a group that
-- has taken fewer than 1000 messages takes it at its end, and a group that has taken 1000 is
-- dropped. So a group never takes more than 1000 messages.
pub add_msg_to_gop_lem :
    (s : ℕ) (channel : Channel) (w : World) (id : ℕ) (ids : List ℕ)
    → channel.chain ≡ id ∷ ids
    → (cache_of w s).gop_counter ≤ 1000
    → Returns (add_msg_to_gop s channel w) λ (r : List ℕ × World).
      ((cache_of r.1 s).gop_counter ≤ 1000)
      × (begins_group w id ≡ true
          → (r.0 ≡ []) × ((cache_of r.1 s).gop ≡ some channel) × ((cache_of r.1 s).gop_counter ≡ 0))
      × (begins_group w id ≡ false
          → (cache_of w s).gop ≡ none
          → (r.0 ≡ channel.chain) × ((cache_of r.1 s).gop ≡ none))
      × ((g : Channel)
          → begins_group w id ≡ false
          → (cache_of w s).gop ≡ some g
          → (r.0 ≡ [])
            × ((cache_of w s).gop_counter < 1000
                → (cache_of r.1 s).gop ≡ some (record g { chain = g.chain ++ channel.chain }))
            × ((cache_of w s).gop_counter ≡ 1000
                → ((cache_of r.1 s).gop ≡ none) × ((cache_of r.1 s).gop_counter ≡ 0)))
unfolding add_msg_to_gop clear_gop chunk_is_keyframe chunk_is_video_sh
add_msg_to_gop_lem s channel w id ids e k = ground arith

-- A message whose first chunk is a sequence header moves its chain into the cache; the head of the
-- chain that is then taken again is no bucket, for video and for audio.
pub sequence_header_leaves_no_head :
    (s : ℕ) (channel : Channel) (w : World) (id : ℕ) (ids : List ℕ)
    → channel.chain ≡ id ∷ ids
    → (chunk_is_video_sh (w.pool.bucket id) ≡ true → on_video_msg s channel w ≡ none)
      × (chunk_is_audio_sh (w.pool.bucket id) ≡ true → on_audio_msg s channel w ≡ none)
unfolding on_video_msg on_audio_msg add_msg_to_gop
sequence_header_leaves_no_head s channel w id ids e = ground arith
