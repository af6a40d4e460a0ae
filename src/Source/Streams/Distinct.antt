-- ===== src/Source/Streams/Distinct.antt =====
-- No source serves two streams.
use bls.Base.{
  ℕ, ◌+◌, ◌≤◌, ◌≡◌, ◌≢◌, refl, ap, ap₂, true, Option, none, some, List, [], ◌∷◌, arith, Returns,
  Returns-elim, count, ==-refl,
}
use bls.World.{World}
use bls.Source.{clear_gop}
use bls.Source.Lifecycle.{clear_consumer, stop_consumers}
use bls.Source.Lifecycle.Cleared.{stop_consumers_kept}
use bls.Source.Streams.{
  find_stream, erase_stream, apply_source, get_publish_source, get_play_source, collect_source,
}

-- The sources that the map gives out.
abbrev pub published : List (ℕ × ℕ) → List ℕ
published [] = []
published ((n, s) ∷ m) = s ∷ published m

-- Each source is in the pool or serves one stream, and never both or two.
abbrev pub Distinct : World → Type 0
Distinct w = (s : ℕ) → count s w.source_pool + count s (published w.source_map) ≤ 1

count-erase_stream :
    (name t : ℕ) (m : List (ℕ × ℕ))
    → (count t (published (erase_stream name m)) ≤ count t (published m))
      × (find_stream name m ≡ some t
          → count t (published (erase_stream name m)) + 1 ≤ count t (published m))
unfolding count find_stream erase_stream
count-erase_stream name t [] = ground arith
count-erase_stream name t ((n, s) ∷ m) = ground (arith, count-erase_stream name t m)

-- For a stream that nobody publishes, while the pool has a source, publishing it takes the pool's
-- first one, and leaves the others: the stream's players find it, a second publisher is refused, the
-- other streams are found as before, and no source serves two streams.
pub get_publish_source_lem :
    (name s : ℕ) (rest : List ℕ) (w : World)
    → Distinct w
    → find_stream name w.source_map ≡ none
    → w.source_pool ≡ s ∷ rest
    → Returns (get_publish_source name w) λ (r : Option ℕ × World).
      (r.0 ≡ some s)
      × Distinct r.1
      × ((r.1.source s).stream_name ≡ name)
      × ((r.1.source s).is_publishing ≡ true)
      × (get_play_source name r.1 ≡ some s)
      × (get_publish_source name r.1 ≡ some (none, r.1))
      × ((n : ℕ) → n ≢ name → get_play_source n r.1 ≡ get_play_source n w)
      × (r.1.source_pool ≡ rest)
unfolding get_publish_source apply_source get_play_source find_stream count
get_publish_source_lem name s rest w d f e = ground (arith, f, e, d s)

find_stream-erase_stream :
    (name : ℕ) (m : List (ℕ × ℕ))
    → (find_stream name (erase_stream name m) ≡ none)
      × ((n : ℕ) → n ≢ name → find_stream n (erase_stream name m) ≡ find_stream n m)
unfolding find_stream erase_stream
find_stream-erase_stream name [] = (refl, λ n ne. refl)
find_stream-erase_stream name ((k, s) ∷ m) =
    let (gone, kept) = find_stream-erase_stream name m in
    (ground (arith, gone), λ n ne. ground (arith, kept n ne))

-- What is left of the map and of the pool when the source of a stream is collected.
collected :
    (s : ℕ) (w : World)
    → Returns (collect_source s w) λ (r : List ℕ × World).
      (r.1.source_pool ≡ s ∷ w.source_pool)
      × (r.1.source_map ≡ erase_stream (w.source s).stream_name w.source_map)
unfolding collect_source clear_consumer clear_gop
collected s w =
    let queue = (w.source s).consumer_queue in
    let k = stop_consumers_kept queue w in
    let name : ((stop_consumers queue w).source s).stream_name ≡ (w.source s).stream_name =
      ap (λ f. (f s).stream_name) k.0 in
    (ap (◌∷◌ s) k.3, rw (==-refl s) (ap₂ erase_stream name k.2))

-- What collecting a source leaves.
abbrev pub Ended : ℕ → World → List ℕ × World → Type 0
Ended s w r =
    Distinct r.1
    × (r.1.source_pool ≡ s ∷ w.source_pool)
    × (get_play_source (w.source s).stream_name r.1 ≡ none)
    × ((n : ℕ) → n ≢ (w.source s).stream_name → get_play_source n r.1 ≡ get_play_source n w)

pub collect_source_lem :
    (s : ℕ) (w : World)
    → Distinct w
    → find_stream (w.source s).stream_name w.source_map ≡ some s
    → Returns (collect_source s w) λ (r : List ℕ × World).
      Distinct r.1
      × (r.1.source_pool ≡ s ∷ w.source_pool)
      × (get_play_source (w.source s).stream_name r.1 ≡ none)
      × ((n : ℕ) → n ≢ (w.source s).stream_name → get_play_source n r.1 ≡ get_play_source n w)
unfolding get_play_source count
collect_source_lem s w d f =
    let name = (w.source s).stream_name in
    let (r, e, (pool, streams)) = Returns-elim (collect_source s w) _ (collected s w) in
    let (gone, kept) = find_stream-erase_stream name w.source_map in
    rw e (
      λ t. rw (pool, streams) (ground (arith, d t, f, count-erase_stream name t w.source_map)),
      pool,
      rw streams gone,
      λ n ne. rw streams (kept n ne),
    )
