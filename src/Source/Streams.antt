-- ===== src/Source/Streams.antt =====
-- The pool of sources and the map of the streams that are published (src/BlsSource.cpp).
pub mod Distinct
use bls.Base.{ℕ, Bool, true, false, Option, none, some, List, [], ◌∷◌, ◌==◌, if◌then◌else◌}
use bls.World.{World, Source, M, ◌>>=◌, ◌>>◌, pure, fault, get}
use bls.Source.{modify_source}
use bls.Source.Lifecycle.{clear_consumer}

-- `std::map::find`, `insert` of a key that is not there, and `erase`.
unfoldable pub find_stream : ℕ → List (ℕ × ℕ) → Option ℕ
find_stream name [] = none
find_stream name ((n, s) ∷ m) = if n == name then some s else find_stream name m

unfoldable pub erase_stream : ℕ → List (ℕ × ℕ) → List (ℕ × ℕ)
erase_stream name [] = []
erase_stream name ((n, s) ∷ m) =
    if n == name then erase_stream name m else (n, s) ∷ erase_stream name m

-- `apply_source`; on an empty pool its `assert` fails.
abbrev pub take_source : List ℕ → M ℕ
take_source [] w = none
take_source (s ∷ rest) w = some (s, record w { source_pool = rest })

unfoldable pub apply_source : M ℕ
apply_source w = take_source w.source_pool w

abbrev pub begin_stream : ℕ → Source → Source
begin_stream name v = record v { stream_name = name; is_publishing = true }

-- The branch of `get_publish_source` for a stream that nobody publishes.
abbrev pub open_stream : ℕ → M (Option ℕ)
open_stream name = do
  s ← apply_source
  λ w. some (tt, record w { source_map = (name, s) ∷ w.source_map })
  modify_source s (begin_stream name)
  pure (some s)

abbrev pub open_or_refuse : ℕ → Option ℕ → M (Option ℕ)
open_or_refuse name (some s) = pure none
open_or_refuse name none = open_stream name

-- `get_publish_source`. `none` is NULL.
unfoldable pub get_publish_source : ℕ → M (Option ℕ)
unfolding apply_source
get_publish_source name w = open_or_refuse name (find_stream name w.source_map) w

-- `get_play_source`
unfoldable pub get_play_source : ℕ → World → Option ℕ
get_play_source name w = find_stream name w.source_map

-- `collect_source`, with the clients that are notified.
unfoldable pub collect_source : ℕ → M (List ℕ)
unfolding clear_consumer
collect_source s = do
  notified ← clear_consumer s
  λ w. some (
    tt,
    record w {
      source_map = erase_stream (w.source s).stream_name w.source_map;
      source_pool = s ∷ w.source_pool;
    },
  )
  pure notified
