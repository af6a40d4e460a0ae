-- ===== src/Consumer.antt =====
-- The consumers of src/BlsConsumer.cpp: what a player is sent of each chunk of the stream it plays.
pub mod Send
pub mod Steps
pub mod Slow
pub mod Callback
pub mod Lifecycle
use bls.Base.{
  ℕ, ◌+◌, ◌%◌, ◌^◌, Bool, true, false, not, ◌&&◌, Option, none, some, ltb, ◌==◌, if◌then◌else◌,
}
use bls.Chunk.{Bucket, ChunkHeader, chunk_is_keyframe}
use bls.World.{
  AvBuffer, Consumer, ConsumerState, wait_metadata, wait_av_sh, wait_audio_sh, wait_video_sh,
  wait_keyframe, run, wait_video_slow_speed, wait_audio_slow_speed, end,
}

abbrev pub max_chunk_buffer_len : ℕ
max_chunk_buffer_len = 400

-- What the `switch` on the consumer's state does with a chunk.
pub data Action : Type 0 where
  -- nothing: `break`, or the early return of a slow player
  drop : Action
  -- stop the dispatch to a slow player
  slow : ConsumerState → Action
  -- write the chunk as it is, with the counting callback
  forward : ConsumerState → Action
  -- metadata, video sequence header, first key frame
  begin_video : Action
  -- metadata, audio sequence header if there is one, first audio chunk
  begin_audio : Action
  -- video sequence header, first key frame
  join_video : Action
  -- audio sequence header, first audio chunk
  join_audio : Action

abbrev pub is_null {ℓ} : {A : Type ℓ} → Option A → Bool
is_null none = true
is_null (some a) = false

-- A chunk that begins a message, for a player with too much in its buffer.
abbrev pub is_too_slow : Consumer → Bucket → Bool
is_too_slow c b = not (b.format == 3) && ltb max_chunk_buffer_len c.chunk_in_buffer_num

-- The tests of `consumer_send_video`.
abbrev pub video_action_in : ConsumerState → Consumer → Bucket → AvBuffer → Action
video_action_in run c b buffer = if is_too_slow c b then slow wait_video_slow_speed else forward run
video_action_in wait_audio_sh c b buffer =
    if is_too_slow c b then slow wait_video_slow_speed else forward wait_audio_sh
video_action_in wait_metadata c b buffer =
    if chunk_is_keyframe b && not (is_null buffer.metadata) && not (is_null buffer.video_sh)
    then begin_video
    else drop
video_action_in wait_video_sh c b buffer =
    if not (is_null buffer.video_sh) && chunk_is_keyframe b then join_video else drop
video_action_in wait_video_slow_speed c b buffer =
    if ltb c.chunk_in_buffer_num max_chunk_buffer_len && chunk_is_keyframe b
    then forward run
    else drop
video_action_in wait_av_sh c b buffer = drop
video_action_in wait_keyframe c b buffer = drop
video_action_in wait_audio_slow_speed c b buffer = drop
video_action_in end c b buffer = drop

unfoldable pub video_action : Consumer → Bucket → AvBuffer → Action
video_action c b buffer = video_action_in c.state c b buffer

-- The tests of `consumer_send_audio`.
abbrev pub audio_action_in : ConsumerState → Consumer → Bucket → AvBuffer → Action
audio_action_in run c b buffer = if is_too_slow c b then slow wait_video_slow_speed else forward run
audio_action_in wait_video_sh c b buffer =
    if is_too_slow c b then slow wait_audio_slow_speed else forward wait_video_sh
audio_action_in wait_metadata c b buffer =
    if not (is_null buffer.metadata) && is_null buffer.video_sh && not (b.format == 3)
    then begin_audio
    else drop
audio_action_in wait_audio_sh c b buffer =
    if not (is_null buffer.audio_sh) then join_audio else drop
audio_action_in wait_audio_slow_speed c b buffer =
    if ltb c.chunk_in_buffer_num max_chunk_buffer_len && not (b.format == 3)
    then forward run
    else drop
audio_action_in wait_av_sh c b buffer = drop
audio_action_in wait_keyframe c b buffer = drop
audio_action_in wait_video_slow_speed c b buffer = drop
audio_action_in end c b buffer = drop

unfoldable pub audio_action : Consumer → Bucket → AvBuffer → Action
audio_action c b buffer = audio_action_in c.state c b buffer

-- What an action leaves in the consumer: its state, and `chunk_in_buffer_num++` behind a write with
-- the counting callback.
unfoldable pub after : Action → Consumer → Consumer
after drop c = c
after (slow s) c = record c { state = s }
after (forward s) c = record c {
  state = s;
  chunk_in_buffer_num = (c.chunk_in_buffer_num + 1) % 2 ^ 32;
}
after begin_video c = record c { state = wait_audio_sh }
after begin_audio c = record c { state = wait_video_sh }
after join_video c = record c { state = run }
after join_audio c = record c { state = run }

-- Does the action send the chunk it is asked about?
abbrev pub sends : Action → Bool
sends drop = false
sends (slow s) = false
sends (forward s) = true
sends begin_video = true
sends begin_audio = true
sends join_video = true
sends join_audio = true
