-- ===== src/Source/Lifecycle/Cleared.antt =====
-- What the loop over the players of an ended stream leaves alone (src/BlsSource.cpp).
use bls.Base.{ℕ, ◌≡◌, List, [], ◌∷◌, arith}
use bls.World.{World}
use bls.Source.Lifecycle.{stop_consumers}

-- The loop changes consumers only.
pub stop_consumers_kept :
    (ks : List ℕ) (w : World)
    → ((stop_consumers ks w).source ≡ w.source)
      × ((stop_consumers ks w).pool ≡ w.pool)
      × ((stop_consumers ks w).source_map ≡ w.source_map)
      × ((stop_consumers ks w).source_pool ≡ w.source_pool)
unfolding stop_consumers
stop_consumers_kept [] w = ground arith
stop_consumers_kept (j ∷ ks) w = stop_consumers_kept ks _
