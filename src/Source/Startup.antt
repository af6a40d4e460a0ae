-- ===== src/Source/Startup.antt =====
-- The sources that the server starts with: `BlsSource::BlsSource` and `init_source_pool`
-- (src/BlsSource.cpp).
use bls.Base.{
  ℕ, zero, suc, ◌+◌, ◌<◌, ◌≡◌, refl, ap, ◌∙◌, false, none, [], ◌∷◌, ◌++◌, arith, count, length,
  length-append, leb, ltb, ◌&&◌, if◌then◌else◌,
}
use bls.Pool.Inv.{count-snoc}
use bls.World.{World, Source, AvBuffer, update}
use bls.Source.Streams.Distinct.{Distinct, published}

abbrev pub default_source_pool_size : ℕ
default_source_pool_size = 3000

-- The constructor of `av_buffer_s`.
abbrev pub new_av_buffer : AvBuffer
new_av_buffer = record {
  metadata = none;
  key_frame = none;
  video_sh = none;
  audio_sh = none;
  gop = none;
  gop_counter = 0;
}

-- The constructor of `BlsSource`, on what the memory holds.
abbrev pub new_source : ℕ → ℕ → Source → Source
new_source video audio v = record v {
  video_chunkid = video;
  audio_chunkid = audio;
  metadata_len = 0;
  abs_record_time = 0;
  time_index = 0;
  video_time = 0;
  audio_time = 0;
  is_publishing = false;
  consumer_queue = [];
  key_cache = new_av_buffer;
}

-- One round of the loop. A source's address is its number. "new BlsSource(12, 13)".
abbrev pub add_source : ℕ → World → World
add_source i w = record w {
  source = update w.source i (new_source 12 13 (w.source i));
  source_pool = w.source_pool ++ i ∷ [];
}

-- The rounds from `i` on.
unfoldable pub add_sources : ℕ → ℕ → World → World
add_sources zero i w = w
add_sources (suc n) i w = add_sources n (i + 1) (add_source i w)

unfoldable pub init_source_pool : World → World
unfolding add_sources
init_source_pool w = add_sources default_source_pool_size 0 (record w { source_pool = [] })

-- Is a source one of those that the rounds add?
abbrev within : ℕ → ℕ → ℕ → ℕ
within n i s = if leb i s && ltb s (i + n) then 1 else 0

-- What the rounds leave.
record Adds (n i : ℕ) (w r : World) : Type 0 where
  pooled : (s : ℕ) → count s r.source_pool ≡ count s w.source_pool + within n i s
  longer : length r.source_pool ≡ length w.source_pool + n
  map_kept : r.source_map ≡ w.source_map

add_sources-Adds : (n i : ℕ) (w : World) → Adds n i w (add_sources n i w)
unfolding add_sources
add_sources-Adds zero i w = record {
  pooled = λ s. ground arith;
  longer = omega arith;
  map_kept = refl;
}
add_sources-Adds (suc n) i w =
    let h = add_sources-Adds n (i + 1) (add_source i w) in
    record {
      pooled = λ s. ground (arith, h.pooled s, count-snoc s i w.source_pool);
      longer = omega (arith, h.longer, length-append w.source_pool (i ∷ []));
      map_kept = h.map_kept;
    }

-- Any number of rounds from an empty pool.
added :
    (n : ℕ) (w : World)
    → w.source_pool ≡ []
    → w.source_map ≡ []
    → Distinct (add_sources n 0 w)
      × (length (add_sources n 0 w).source_pool ≡ n)
      × ((s : ℕ) → s < n → count s (add_sources n 0 w).source_pool ≡ 1)
      × ((add_sources n 0 w).source_map ≡ [])
unfolding count
added n w p e =
    let h = add_sources-Adds n 0 w in
    let nothing : (s : ℕ) → count s (published (add_sources n 0 w).source_map) ≡ 0 =
      λ s. ap (λ m. count s (published m)) (h.map_kept ∙ e) in
    let free : (s : ℕ) → count s w.source_pool ≡ 0 = λ s. ap (count s) p in
    (
      λ s. ground (arith, h.pooled s, nothing s, free s),
      omega (arith, h.longer, ap length p),
      λ s k. ground (arith, h.pooled s, k, free s),
      h.map_kept ∙ e,
    )

-- When the server starts, while no stream is published, the pool of sources gets the 3000 sources
-- from 0 on, each of them once; no source serves two streams then.
pub init_source_pool-Distinct :
    (w : World)
    → w.source_map ≡ []
    → Distinct (init_source_pool w)
      × (length (init_source_pool w).source_pool ≡ 3000)
      × ((s : ℕ) → s < 3000 → count s (init_source_pool w).source_pool ≡ 1)
      × ((init_source_pool w).source_map ≡ [])
unfolding init_source_pool
init_source_pool-Distinct w e = added 3000 (record w { source_pool = [] }) refl e
