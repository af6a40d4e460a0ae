-- ===== src/Consumer/Steps.antt =====
-- What the state machine of a consumer guarantees, chunk by chunk and message by message.
use bls.Base.{
  ◌+◌, ◌≤◌, ◌<◌, ◌^◌, ◌≡◌, ◌≢◌, refl, sym, subst, ◌⊎◌, Bool, true, false, not, List, [], ◌∷◌, arith,
}
use bls.Chunk.{Bucket, chunk_is_keyframe}
use bls.World.{
  AvBuffer, Consumer, ConsumerState, wait_metadata, wait_av_sh, wait_audio_sh, wait_video_sh,
  wait_keyframe, run, wait_video_slow_speed, wait_audio_slow_speed, end,
}
use bls.Consumer.{
  video_action_in, audio_action_in, video_action, audio_action, after, sends, is_null,
}

-- The consumer after a chunk.
abbrev pub step_video : Consumer → AvBuffer → Bucket → Consumer
step_video c buffer b = after (video_action c b buffer) c

abbrev pub step_audio : Consumer → AvBuffer → Bucket → Consumer
step_audio c buffer b = after (audio_action c b buffer) c

-- All the chunks are continuations, of format 3.
abbrev pub Continues : List Bucket → Type 0
Continues [] = Unit {0}
Continues (b ∷ bs) = (b.format ≡ 3) × Continues bs

-- One entry for each chunk in turn: is it sent?
unfoldable pub video_trace : Consumer → AvBuffer → List Bucket → List Bool
video_trace c buffer [] = []
video_trace c buffer (b ∷ bs) =
    sends (video_action c b buffer) ∷ video_trace (step_video c buffer b) buffer bs

unfoldable pub audio_trace : Consumer → AvBuffer → List Bucket → List Bool
audio_trace c buffer [] = []
audio_trace c buffer (b ∷ bs) =
    sends (audio_action c b buffer) ∷ audio_trace (step_audio c buffer b) buffer bs

abbrev pub AllAre : Bool → List Bool → Type 0
AllAre v [] = Unit {0}
AllAre v (x ∷ xs) = (x ≡ v) × AllAre v xs

-- In these states a continuation of a video message is sent; in the others it is not.
abbrev pub passes_video : ConsumerState → Bool
passes_video run = true
passes_video wait_audio_sh = true
passes_video _ = false

rest_of_video :
    (c : Consumer) (buffer : AvBuffer) (bs : List Bucket)
    → Continues bs
    → AllAre (passes_video c.state) (video_trace c buffer bs)
unfolding video_trace video_action after chunk_is_keyframe
rest_of_video c buffer [] h = tt
rest_of_video c buffer (b ∷ bs) h =
    ground (arith, rest_of_video (step_video c buffer b) buffer bs h.1)

-- Of a video message, the chunk that begins it and its continuations, a consumer is sent every
-- chunk or none, in whatever state the message finds it.
pub video_message_whole :
    (c : Consumer) (buffer : AvBuffer) (b : Bucket) (bs : List Bucket)
    → Continues bs
    → AllAre (sends (video_action c b buffer)) (video_trace c buffer (b ∷ bs))
unfolding video_trace video_action after chunk_is_keyframe
video_message_whole c buffer b bs h =
    ground (arith, rest_of_video (step_video c buffer b) buffer bs h)

abbrev passes_audio : ConsumerState → AvBuffer → Bool
passes_audio run buffer = true
passes_audio wait_video_sh buffer = true
passes_audio wait_audio_sh buffer = not (is_null buffer.audio_sh)
passes_audio _ buffer = false

rest_of_audio :
    (c : Consumer) (buffer : AvBuffer) (bs : List Bucket)
    → Continues bs
    → AllAre (passes_audio c.state buffer) (audio_trace c buffer bs)
unfolding audio_trace audio_action after
rest_of_audio c buffer [] h = tt
rest_of_audio c buffer (b ∷ bs) h =
    ground (arith, rest_of_audio (step_audio c buffer b) buffer bs h.1)

-- The same of an audio message.
pub audio_message_whole :
    (c : Consumer) (buffer : AvBuffer) (b : Bucket) (bs : List Bucket)
    → Continues bs
    → AllAre (sends (audio_action c b buffer)) (audio_trace c buffer (b ∷ bs))
unfolding audio_trace audio_action after
audio_message_whole c buffer b bs h =
    ground (arith, rest_of_audio (step_audio c buffer b) buffer bs h)

-- The moves of `consumer_state_e` that chunks can cause.
pub data Move : ConsumerState → ConsumerState → Type 0 where
  stay : {s : ConsumerState} → Move s s
  video_begins : Move wait_metadata wait_audio_sh
  audio_begins : Move wait_metadata wait_video_sh
  audio_joins : Move wait_audio_sh run
  video_joins : Move wait_video_sh run
  falls_behind : Move run wait_video_slow_speed
  video_falls_behind : Move wait_audio_sh wait_video_slow_speed
  audio_falls_behind : Move wait_video_sh wait_audio_slow_speed
  video_recovers : Move wait_video_slow_speed run
  audio_recovers : Move wait_audio_slow_speed run

ruleset moves = (
  arith, video_begins, audio_begins, audio_joins, video_joins, falls_behind, video_falls_behind,
  audio_falls_behind, video_recovers, audio_recovers,
)

stay_at : {s t : ConsumerState} → t ≡ s → Move s t
stay_at {s} h = subst (Move s) (sym h) stay

video_transition :
    (s : ConsumerState) (c : Consumer) (buffer : AvBuffer) (b : Bucket)
    → c.state ≡ s
    → Move s (after (video_action_in s c b buffer) c).state
unfolding after
video_transition run c buffer b h = ground (moves, stay_at h)
video_transition wait_audio_sh c buffer b h = ground (moves, stay_at h)
video_transition wait_metadata c buffer b h = ground (moves, stay_at h)
video_transition wait_video_sh c buffer b h = ground (moves, stay_at h)
video_transition wait_video_slow_speed c buffer b h = ground (moves, stay_at h)
video_transition wait_av_sh c buffer b h = ground (moves, stay_at h)
video_transition wait_keyframe c buffer b h = ground (moves, stay_at h)
video_transition wait_audio_slow_speed c buffer b h = ground (moves, stay_at h)
video_transition end c buffer b h = ground (moves, stay_at h)

audio_transition :
    (s : ConsumerState) (c : Consumer) (buffer : AvBuffer) (b : Bucket)
    → c.state ≡ s
    → Move s (after (audio_action_in s c b buffer) c).state
unfolding after
audio_transition run c buffer b h = ground (moves, stay_at h)
audio_transition wait_audio_sh c buffer b h = ground (moves, stay_at h)
audio_transition wait_metadata c buffer b h = ground (moves, stay_at h)
audio_transition wait_video_sh c buffer b h = ground (moves, stay_at h)
audio_transition wait_video_slow_speed c buffer b h = ground (moves, stay_at h)
audio_transition wait_av_sh c buffer b h = ground (moves, stay_at h)
audio_transition wait_keyframe c buffer b h = ground (moves, stay_at h)
audio_transition wait_audio_slow_speed c buffer b h = ground (moves, stay_at h)
audio_transition end c buffer b h = ground (moves, stay_at h)

-- Whatever chunk comes, the state of a consumer makes one of these moves. So no chunk leads out of
-- `end`, back to `wait_metadata`, or into `wait_av_sh` or `wait_keyframe`.
pub step-Move :
    (c : Consumer) (buffer : AvBuffer) (b : Bucket)
    → Move c.state (step_video c buffer b).state × Move c.state (step_audio c buffer b).state
unfolding video_action audio_action after
step-Move c buffer b =
    (video_transition c.state c buffer b refl, audio_transition c.state c buffer b refl)

-- The writes in flight that the counter of a consumer stands for stay bounded: a chunk that begins
-- a message raises the counter only from at most 400, and by one; no chunk lowers it.
pub step_bounded :
    (c : Consumer) (buffer : AvBuffer) (b : Bucket)
    → b.format ≢ 3
    → c.chunk_in_buffer_num < 2 ^ 32
    → (((step_video c buffer b).chunk_in_buffer_num ≡ c.chunk_in_buffer_num)
        ⊎ (((step_video c buffer b).chunk_in_buffer_num ≡ c.chunk_in_buffer_num + 1)
            × (c.chunk_in_buffer_num ≤ 400)))
      × (((step_audio c buffer b).chunk_in_buffer_num ≡ c.chunk_in_buffer_num)
          ⊎ (((step_audio c buffer b).chunk_in_buffer_num ≡ c.chunk_in_buffer_num + 1)
              × (c.chunk_in_buffer_num ≤ 400)))
unfolding video_action audio_action after
step_bounded c buffer b h k = ground arith
