-- ===== src/Server/Startup.antt =====
-- The start of the process: `start_server` (src/addon.cpp), and the constructors of `rtmp_config_s` and
-- `RtmpServer` (include/RtmpServer.h, src/RtmpServer.cpp).
use bls.Base.{
  subst, ℕ, zero, suc, ◌+◌, ◌≡◌, refl, ap, ◌∙◌, sym, true, Option, none, some, [], arith, length,
}
use bls.Chunk.{default_chunk_bucket_size}
use bls.Pool.{Pool, init_chunk_pool, add_pool_queue}
use bls.Pool.Inv.{Inv, init_chunk_pool-Inv, add_buckets-Grows}
use bls.World.{World, Socket}
use bls.Source.Startup.{add_source, add_sources, init_source_pool, init_source_pool-Distinct}
use bls.Source.Streams.Distinct.{Distinct}
use bls.Protocol.Lifecycle.Started.{CanSend}
use bls.Server.{Server}

abbrev pub default_max_client : ℕ
default_max_client = 2000

abbrev pub default_chunk_pool_size : ℕ
default_chunk_pool_size = 5000

-- `rtmp_config_s`, without the logger's part.
pub record Config : Type 0 where
  pub port : ℕ
  pub max_client_num : ℕ
  pub chunk_bucket_size : ℕ
  pub chunk_pool_size : ℕ
  pub ping_pong_time : ℕ

-- Its constructor.
abbrev pub new_config : Config
new_config = record {
  port = 1935;
  max_client_num = default_max_client;
  chunk_bucket_size = default_chunk_bucket_size;
  chunk_pool_size = default_chunk_pool_size;
  ping_pong_time = 30;
}

-- What the object that JavaScript gives has of it.
pub record ConfigObject : Type 0 where
  pub max_client_num : Option ℕ
  pub port : Option ℕ
  pub ping_pong_time : Option ℕ

abbrev pub or_default : Option ℕ → ℕ → ℕ
or_default none n = n
or_default (some m) n = m

abbrev pub read_config : ConfigObject → Config
read_config o = record new_config {
  max_client_num = or_default o.max_client_num new_config.max_client_num;
  port = or_default o.port new_config.port;
  ping_pong_time = or_default o.ping_pong_time new_config.ping_pong_time;
}

-- `RtmpServer`: what it has of the configuration. The count of its clients is in the world.
abbrev pub new_server : Config → Server
new_server conf = record { max_client_num = conf.max_client_num }

-- `start_server`, but for the log and for listening, whose result it does not look at.
unfoldable pub start_server : ConfigObject → World → Server × World
unfolding init_chunk_pool init_source_pool
start_server o w =
    let conf = read_config o in
    let pooled : World = record w {
      pool = init_chunk_pool w.pool conf.chunk_bucket_size conf.chunk_pool_size;
    } in
    (new_server conf, record (init_source_pool pooled) { client_count = 0 })

-- Filling the pool of sources does not change the pool of buckets.
add_sources-kept : (n i : ℕ) (w : World) → (add_sources n i w).pool ≡ w.pool
unfolding add_sources
add_sources-kept zero i w = refl
add_sources-kept (suc n) i w = add_sources-kept n (i + 1) (add_source i w)

init_source_pool-kept : (w : World) → (init_source_pool w).pool ≡ w.pool
unfolding init_source_pool
init_source_pool-kept w = add_sources-kept 3000 0 (record w { source_pool = [] })

init_chunk_pool-queue :
    (p : Pool) (size n : ℕ)
    → (length (init_chunk_pool p size n).queue ≡ n)
      × ((init_chunk_pool p size n).payload_size ≡ size)
unfolding init_chunk_pool add_pool_queue
init_chunk_pool-queue p size n =
    let empty : Pool = record p {
      payload_size = size;
      pool_size = n;
      add_pool_count = 0;
      valid_chunk_num = 0;
      queue = [];
    } in
    let g = add_buckets-Grows n size empty [] in
    (ground (arith, g.made, g.queue_kept), g.payload_size_kept)

-- `start_server`, in a process that has made no bucket and published no stream, whatever it is
-- configured with and whatever memory `malloc` gives it: the pool has 5000 free buckets of 8192 bytes
-- and its ownership; the 3000 sources are free, each once, and serve no stream; no client is counted;
-- and a client whose socket is then opened can be sent the messages that follow its handshake.
pub start_server_lem :
    (o : ConfigObject) (w : World) (client : ℕ) (sockets : ℕ → Socket)
    → w.pool.next_bucket_id ≡ 0
    → w.source_map ≡ []
    → (sockets client).is_open ≡ true
    → let r = start_server o w in
      Inv r.1.pool
      × (length r.1.pool.queue ≡ 5000)
      × (r.1.pool.payload_size ≡ 8192)
      × Distinct r.1
      × (length r.1.source_pool ≡ 3000)
      × (r.1.source_map ≡ [])
      × (r.1.client_count ≡ 0)
      × CanSend 4 client (record r.1 { socket = sockets })
unfolding start_server
start_server_lem o w client sockets fresh none_yet up =
    let pooled : World = record w { pool = init_chunk_pool w.pool 8192 5000 } in
    let kept = init_source_pool-kept pooled in
    let sources = init_source_pool-Distinct pooled none_yet in
    let queue = init_chunk_pool-queue w.pool 8192 5000 in
    let inv = subst Inv (sym kept) (init_chunk_pool-Inv w.pool 8192 5000 fresh) in
    let full = ap (λ p. length p.queue) kept ∙ queue.0 in
    let size = ap (λ p. p.payload_size) kept ∙ queue.1 in
    (
      inv,
      full,
      size,
      sources.0,
      sources.1,
      sources.3,
      refl,
      record {
        inv = inv;
        has_buckets = omega (arith, full);
        big_enough = omega (arith, size);
        is_open = up;
      },
    )
