-- ===== src/Consumer/Lifecycle/Removed.antt =====
-- A player that is gone.
use bls.Base.{ℕ, ◌≡◌, ◌≢◌, refl, true, false, List, [], ◌∷◌, arith, Returns, elem}
use bls.Pool.{free_chain}
use bls.World.{World, Consumer}
use bls.Consumer.Lifecycle.{free_consumer, remove_consumer}

elem-remove_consumer :
    (k : ℕ) (js : List ℕ)
    → (elem k (remove_consumer k js) ≡ false)
      × ((j : ℕ) → j ≢ k → elem j (remove_consumer k js) ≡ elem j js)
unfolding elem remove_consumer
elem-remove_consumer k [] = (refl, λ j ne. refl)
elem-remove_consumer k (i ∷ js) =
    let (gone, kept) = elem-remove_consumer k js in
    (ground (arith, gone), λ j ne. ground (arith, kept j ne))

abbrev pub own_buckets : Consumer → List ℕ
own_buckets c =
    c.first_audio_chunk_header ∷ c.first_video_chunk_header ∷ c.first_key_fram_chunk_header
    ∷ c.metadata_chunk_header ∷ c.first_audio2_chunk_header ∷ []

-- What freeing a player leaves.
abbrev pub Gone : ℕ → World → Unit {0} × World → Type 0
Gone k w r =
    (r.1.pool ≡ free_chain w.pool (own_buckets (w.consumer k)))
    × ((s : ℕ) → elem k (r.1.source s).consumer_queue ≡ false)
    × ((s j : ℕ)
        → j ≢ k
        → elem j (r.1.source s).consumer_queue ≡ elem j (w.source s).consumer_queue)

-- Freeing a player that is alive takes it out of every source's queue, where every other player
-- stays, and drops one reference to each of its five buckets; so no chunk is dispatched to it any
-- more.
pub free_consumer_lem :
    (k : ℕ) (w : World)
    → (w.consumer k).is_alive ≡ true
    → Returns (free_consumer k w) λ (r : Unit {0} × World).
      (r.1.pool ≡ free_chain w.pool (own_buckets (w.consumer k)))
      × ((s : ℕ) → elem k (r.1.source s).consumer_queue ≡ false)
      × ((s j : ℕ)
          → j ≢ k
          → elem j (r.1.source s).consumer_queue ≡ elem j (w.source s).consumer_queue)
unfolding free_consumer free_chain
free_consumer_lem k w h = rw h (
  refl,
  λ s. (elem-remove_consumer k (w.source s).consumer_queue).0,
  λ s j ne. (elem-remove_consumer k (w.source s).consumer_queue).1 j ne,
)
