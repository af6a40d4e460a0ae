-- ===== src/Examples/Streams.antt =====
-- Streams that begin and end, players that go, and clients that are admitted.
use bls.Server.Startup.{ConfigObject, start_server, start_server_lem}
use bls.Protocol.Lifecycle.Started.{CanSend}
use bls.Pool.Inv.{Inv}
use bls.Base.{
  ℕ, ◌+◌, ◌≤◌, ◌≡◌, ◌≢◌, refl, true, Option, none, some, List, [], ◌∷◌, arith, Returns, count,
}
use bls.World.{World}
use bls.Source.Streams.{find_stream, get_publish_source, get_play_source}
use bls.Source.Streams.Distinct.{Distinct, get_publish_source_lem}
use bls.Base.{length}
use bls.Source.Metadata.{find_key, search_limit}
use bls.Source.Metadata.Search.{IsFirst, find_key_ends}
use bls.Protocol.Client.{close_early}
use bls.Server.{Server, accept_client}
use bls.Server.Admission.{Serves, starts, connects, closes_early, serve_bounded}
use bls.Examples.Data.{busy_pool, raw_pool, empty_cache, ready_cache, source_with, world_of}

-- Source 0 serves stream 7 to players 5 and 6; sources 8 and 9 are free.
abbrev live : World
live = record (world_of (busy_pool 1) [] ready_cache) {
  source = λ _. record (source_with ready_cache) { consumer_queue = 5 ∷ 6 ∷ []; time_index = 40 };
}

live-Distinct : Distinct live
unfolding count
live-Distinct s = ground arith

get_publish_source_lem_example : Returns (get_publish_source 3 live) λ (r : Option ℕ × World).
    (r.0 ≡ some 8)
    × Distinct r.1
    × ((r.1.source 8).stream_name ≡ 3)
    × ((r.1.source 8).is_publishing ≡ true)
    × (get_play_source 3 r.1 ≡ some 8)
    × (get_publish_source 3 r.1 ≡ some (none, r.1))
    × ((n : ℕ) → n ≢ 3 → get_play_source n r.1 ≡ get_play_source n live)
    × (r.1.source_pool ≡ 9 ∷ [])
unfolding find_stream
get_publish_source_lem_example = get_publish_source_lem 3 8 (9 ∷ []) live live-Distinct refl refl

-- Forty bytes that do not have the key.
find_key_ends_example : Returns (find_key 3001 (λ _. 0) 0 (search_limit 40)) (IsFirst (λ _. 0) 0 27)
find_key_ends_example = find_key_ends (λ _. 0) 40 (omega arith) (omega arith)

-- A process that has made nothing yet, given only a limit of one client.
abbrev unstarted : World
unstarted = world_of raw_pool [] empty_cache

abbrev one_client : ConfigObject
one_client = record { max_client_num = some 1; port = none; ping_pong_time = none }

abbrev blank : World
blank = record unstarted { source_map = [] }

start_server_lem_example :
    let r = start_server one_client blank in
    Inv r.1.pool
    × (length r.1.pool.queue ≡ 5000)
    × (r.1.pool.payload_size ≡ 8192)
    × Distinct r.1
    × (length r.1.source_pool ≡ 3000)
    × (r.1.source_map ≡ [])
    × (r.1.client_count ≡ 0)
    × CanSend 4 4 (record r.1 { socket = unstarted.socket })
start_server_lem_example = start_server_lem one_client blank 4 unstarted.socket refl refl refl

-- A limit of one client: clients 4 and 5 are accepted, 6 is not, and 4 closes.
abbrev small_server : Server
small_server = record { max_client_num = 1 }

abbrev nobody : World
nobody = record blank { client_count = 0 }

abbrev accepting : World → World
accepting w = (accept_client true small_server w).1

abbrev three_came : World
three_came = accepting (accepting (accepting nobody))

three_come : Serves small_server three_came (5 ∷ 4 ∷ [])
unfolding accept_client
three_come = connects (connects (connects (starts nobody refl) true 4) true 5) true 6

abbrev still_open : List ℕ
still_open = 5 ∷ []

one_goes : Serves small_server (close_early 4 true three_came) (5 ∷ [])
one_goes = closes_early three_come (5 ∷ []) [] 4 refl

serve_bounded_example :
    ((close_early 4 true three_came).client_count ≡ length still_open) × (length still_open ≤ 1 + 1)
serve_bounded_example = serve_bounded small_server (omega arith) one_goes
