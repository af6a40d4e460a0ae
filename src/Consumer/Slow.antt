-- ===== src/Consumer/Slow.antt =====
-- A player that has fallen behind (src/BlsConsumer.cpp), over any sequence of chunks and finished
-- writes.
use bls.Base.{
  ◌+◌, ◌-◌, ◌%◌, ◌^◌, ◌≡◌, refl, ap, ◌⊎◌, inl, inr, Bool, true, false, ◌&&◌, List, [], ◌∷◌, ◌++◌,
  arith, ltb, Bool-cases,
}
use bls.Chunk.{Bucket, chunk_is_keyframe}
use bls.World.{AvBuffer, Consumer, run, wait_video_slow_speed}
use bls.Consumer.{video_action, audio_action, after, sends}
use bls.Consumer.Steps.{step_video, step_audio}

-- What can happen to a player: a chunk of its stream is dispatched to it, or a counted write ends.
pub data Happening : Type 0 where
  video audio : AvBuffer → Bucket → Happening
  write_ends : Happening

abbrev pub sees : Happening → Consumer → Consumer
sees (video buffer b) c = step_video c buffer b
sees (audio buffer b) c = step_audio c buffer b
sees write_ends c = record c {
  chunk_in_buffer_num = (c.chunk_in_buffer_num + (2 ^ 32 - 1)) % 2 ^ 32;
}

abbrev pub sees_all : List Happening → Consumer → Consumer
sees_all [] c = c
sees_all (e ∷ es) c = sees_all es (sees e c)

abbrev pub is_sent : Happening → Consumer → Bool
is_sent (video buffer b) c = sends (video_action c b buffer)
is_sent (audio buffer b) c = sends (audio_action c b buffer)
is_sent write_ends c = false

-- A key frame comes while fewer than 400 chunks are in the buffer.
abbrev pub opens : Happening → Consumer → Bool
opens (video buffer b) c = ltb c.chunk_in_buffer_num 400 && chunk_is_keyframe b
opens (audio buffer b) c = false
opens write_ends c = false

-- Nothing of it opens, and nothing is sent.
abbrev pub Silent : List Happening → Consumer → Type 0
Silent [] c = Unit {0}
Silent (e ∷ es) c = (opens e c ≡ false) × (is_sent e c ≡ false) × Silent es (sees e c)

abbrev pub IsWaiting : Consumer → Type 0
IsWaiting c = c.state ≡ wait_video_slow_speed

-- The first that opens, behind silence: it is sent, and the player runs.
pub record Resumed (es : List Happening) (c : Consumer) : Type 0 where
  pub before : List Happening
  pub key : Happening
  pub later : List Happening
  pub splits : es ≡ before ++ key ∷ later
  pub silent : Silent before c
  pub slow_until : IsWaiting (sees_all before c)
  pub is_key : opens key (sees_all before c) ≡ true
  pub is_sent_then : is_sent key (sees_all before c) ≡ true
  pub runs : (sees key (sees_all before c)).state ≡ run

still-IsWaiting :
    (e : Happening) (c : Consumer)
    → IsWaiting c
    → opens e c ≡ false
    → (is_sent e c ≡ false) × IsWaiting (sees e c)
unfolding video_action audio_action after
still-IsWaiting (video buffer b) c h k = ground (arith, h, k)
still-IsWaiting (audio buffer b) c h k = ground (arith, h, k)
still-IsWaiting write_ends c h k = (refl, h)

opened :
    (e : Happening) (c : Consumer)
    → IsWaiting c
    → opens e c ≡ true
    → (is_sent e c ≡ true) × ((sees e c).state ≡ run)
unfolding video_action audio_action after
opened (video buffer b) c h k = ground (arith, h, k)
opened (audio buffer b) c h k = ground (arith, h, k)
opened write_ends c h k = ground (arith, h, k)

-- Whatever video and audio chunks come and whatever counted writes end, a player that fell behind on
-- a stream with video is sent nothing and waits until a video chunk that begins a key frame finds
-- fewer than 400 chunks in its buffer. The first such chunk is sent, and the player runs. If there is
-- none, nothing at all is sent, and the player still waits.
pub slow_video_recovers :
    (es : List Happening) (c : Consumer)
    → c.state ≡ wait_video_slow_speed
    → (Silent es c × IsWaiting (sees_all es c)) ⊎ Resumed es c
slow_video_recovers [] c h = inl (tt, h)
slow_video_recovers (e ∷ es) c h = elim (Bool-cases (opens e c)) [
  | inl key ↦
      let (sent, running) = opened e c h key in
      inr (record {
        before = [];
        key = e;
        later = es;
        splits = refl;
        silent = tt;
        slow_until = h;
        is_key = key;
        is_sent_then = sent;
        runs = running;
      })
  | inr not_yet ↦
      let (unsent, slow) = still-IsWaiting e c h not_yet in
      elim (slow_video_recovers es (sees e c) slow) [
        | inl (quiet, waits) ↦ inl ((not_yet, unsent, quiet), waits)
        | inr r ↦ inr (record {
          before = e ∷ r.before;
          key = r.key;
          later = r.later;
          splits = ap (◌∷◌ e) r.splits;
          silent = (not_yet, unsent, r.silent);
          slow_until = r.slow_until;
          is_key = r.is_key;
          is_sent_then = r.is_sent_then;
          runs = r.runs;
        })
      ]
]
