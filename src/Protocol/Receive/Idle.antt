-- ===== src/Protocol/Receive/Idle.antt =====
-- `expect_chunk` gets ready for the next chunk (src/RtmpProtocol.cpp).
use bls.Base.{
  ℕ, ◌≤◌, ◌≡◌, ◌⊎◌, inl, inr, refl, ap, ◌∙◌, false, none, some, arith, Returns, Returns-elim,
  ==-refl, ltb, ◌&&◌, if◌then◌else◌,
}
use bls.Chunk.{Bucket, begin}
use bls.Pool.{Pool, put_bucket, refill, alloc_chunk_bucket}
use bls.Pool.Inv.{Inv}
use bls.Pool.Alloc.{IsFresh, alloc_chunk_bucket-IsFresh}
use bls.World.{World, Channel}
use bls.World.Buckets.{alloc_bucket}
use bls.Protocol.{
  Conn, find_channel, the_channel, pure, P, conn, modify, bind, lift-bind, ◌>>=◌, ◌>>◌,
}
use bls.Protocol.Control.{process_window_ack}
use bls.Protocol.Control.Sent.{HasBucket}
use bls.Protocol.Machine.{
  modify_chunk, expect_chunk, begin_chunk, wants_rest, expect_rest, on_begin, rest_or_begin,
  current,
}
use bls.Protocol.Receive.Delivery.{Quiet, process_window_ack-Quiet}
use bls.Protocol.Receive.Delivery.Payload.{the_channel_eq}
use bls.Protocol.Receive.Delivery.Whole.{IsIdle}

-- No rest of a large chunk is due: there is no current channel, or the peer's chunks fit a bucket.
abbrev pub Begins : Conn → Type 0
Begins c =
    (c.current_channel ≡ none)
    ⊎ ((cid : ℕ) × (v : Channel) × (c.current_channel ≡ some cid)
        × (find_channel cid c.channels ≡ some v)
        × (c.chunk_size ≤ 8192))

-- The bucket of a new chunk.
abbrev pub claimed : Bucket → Bucket
claimed b = record b { payload_recv_len = 0; header_recv_len = 0; state = begin }

pub alloc_eq :
    (w : World) (id : ℕ) (p : Pool)
    → alloc_chunk_bucket w.pool ≡ some (id, p)
    → alloc_bucket w ≡ some (id, record w { pool = p })
alloc_eq w id p e = ground (arith, e)

pub begins :
    (c : Conn) (w : World)
    → Begins c
    → (current c.current_channel >>= rest_or_begin) c w ≡ begin_chunk c w
begins c w (inl e) = ap (λ o. (current o >>= rest_or_begin) c w) e
begins c w (inr (cid, v, e, f, k)) =
    ap (λ o. (current o >>= rest_or_begin) c w) e
    ∙ bind (current (some cid)) rest_or_begin
        (bind the_channel (λ x. pure (some x.1)) (the_channel_eq c w cid v e f))
    ∙ ap (λ b. (if b && wants_rest c v.header then expect_rest v else begin_chunk) c w) not_above
  where
    not_above : ltb 8192 c.chunk_size ≡ false
    not_above = ground (arith, k)

begin_chunk-IsIdle :
    (c : Conn) (w : World)
    → c.is_closed ≡ false
    → Quiet c 0
    → (w.pool.bucket c.current_chunk).payload_length ≡ 0
    → (w.pool.bucket c.current_chunk).source_stream_name ≡ none
    → Returns (begin_chunk c w) λ (r : Unit {0} × Conn × World).
      IsIdle r.1 r.2
      × (r.1.channels ≡ c.channels)
      × (r.1.window_size ≡ c.window_size)
      × (r.1.chunk_size ≡ c.chunk_size)
      × (r.2.socket ≡ w.socket)
unfolding on_begin
begin_chunk-IsIdle c w h q l n =
    rw (bind (process_window_ack 0) (λ _. on_begin) (process_window_ack-Quiet c w 0 q)) (
      rw h (
        record {
          awaits_byte = refl;
          is_up = refl;
          at_begin = rw (==-refl c.current_chunk) refl;
          no_payload = rw (==-refl c.current_chunk) l;
          no_name = rw (==-refl c.current_chunk) n;
          none_received = rw (==-refl c.current_chunk) refl;
        },
        refl,
        refl,
        refl,
        refl,
      ))

-- What `expect_chunk` does with its new bucket.
abbrev pub with_bucket : ℕ → P (Unit {0})
with_bucket id = do
  modify (λ c. record c { current_chunk = id })
  modify_chunk claimed
  c ← conn
  channel ← current c.current_channel
  rest_or_begin channel

-- An open connection, with no acknowledgement due and no rest of a large chunk to come, gets a new
-- bucket and waits for the first byte of a chunk, with the channels, the window and the chunk size
-- as they were, if the pool can give a bucket. Nothing is sent.
pub expect_chunk-IsIdle :
    (c : Conn) (w : World)
    → Inv w.pool
    → HasBucket w.pool
    → c.is_closed ≡ false
    → Quiet c 0
    → Begins c
    → Returns (expect_chunk c w) λ (r : Unit {0} × Conn × World).
      IsIdle r.1 r.2
      × (r.1.channels ≡ c.channels)
      × (r.1.window_size ≡ c.window_size)
      × (r.1.chunk_size ≡ c.chunk_size)
      × (r.2.socket ≡ w.socket)
unfolding expect_chunk
expect_chunk-IsIdle c w v room h q b =
    let (r, e, fresh) =
      Returns-elim (alloc_chunk_bucket w.pool) (IsFresh (refill w.pool))
        (alloc_chunk_bucket-IsFresh w.pool v room) in
    let c1 : Conn = record c { current_chunk = r.0 } in
    let w1 : World = record w { pool = put_bucket r.1 r.0 (claimed (r.1.bucket r.0)) } in
    rw (lift-bind alloc_bucket with_bucket c w (alloc_eq w r.0 r.1 e) ∙ begins c1 w1 b) (
      begin_chunk-IsIdle c1 w1 h q (rw (==-refl r.0) fresh.empty.0)
        (rw (==-refl r.0) fresh.nameless))
