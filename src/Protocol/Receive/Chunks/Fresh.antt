-- ===== src/Protocol/Receive/Chunks/Fresh.antt =====
-- The bucket that `expect_chunk` takes for the next chunk (src/RtmpProtocol.cpp).
use bls.Base.{
  ℕ, ◌+◌, ◌<◌, ◌≡◌, ◌≢◌, inl, refl, ◌∙◌, subst, false, some, arith, Returns, Returns-elim, length,
  count,
}
use bls.Chunk.{Bucket, size_basic_header}
use bls.Pool.{Pool, put_bucket, alloc_chunk_bucket}
use bls.Pool.Inv.{Inv}
use bls.Pool.Free.{Held}
use bls.Pool.Alloc.{IsFresh, alloc_chunk_bucket-IsFresh}
use bls.World.{World}
use bls.World.Buckets.{alloc_bucket}
use bls.World.Encode.Made.{refill_full}
use bls.World.Rewrites.{Rewrites, Rewrites-trans, put_bucket-Rewrites, Rewrites-Inv}
use bls.Protocol.{Conn, in_header, bind, lift-bind}
use bls.Protocol.Control.{process_window_ack, counted}
use bls.Protocol.Machine.{expect_chunk, begin_chunk, on_begin}
use bls.Protocol.Receive.Delivery.{Quiet, started, process_window_ack-Quiet, the_bucket}
use bls.Protocol.Receive.Delivery.Whole.{IsIdle}
use bls.Protocol.Receive.Idle.{Begins, begins, with_bucket, claimed, alloc_eq}

abbrev begun : Bucket → Bucket
begun b = record b { state = size_basic_header; header_recv_len = 0; payload_recv_len = 0 }

begin_chunk_eq :
    (c : Conn) (w : World)
    → c.is_closed ≡ false
    → Quiet c 0
    → begin_chunk c w
      ≡ some (
        tt,
        record (counted 0 c) { reading = some (started c.current_chunk in_header 0 1) },
        record w { pool = put_bucket w.pool c.current_chunk (begun (the_bucket c w)) },
      )
unfolding on_begin
begin_chunk_eq c w up q =
    bind (process_window_ack 0) (λ _. on_begin) (process_window_ack-Quiet c w 0 q) ∙ rw up refl

-- What the connection and the pool are when the next chunk is awaited, in a bucket from the queue.
abbrev pub next_conn : ℕ → Conn → Conn
next_conn id c = record (counted 0 (record c { current_chunk = id })) {
  reading = some (started id in_header 0 1);
}

pub record Claims (id : ℕ) (c : Conn) (w w' : World) : Type 0 where
  pub idle : IsIdle (next_conn id c) w'
  pub inv : Inv w'.pool
  pub was_free : count id w.pool.queue ≡ 1
  pub left_queue : count id w'.pool.queue ≡ 0
  pub others_queued : (i : ℕ) → i ≢ id → count i w'.pool.queue ≡ count i w.pool.queue
  pub others_kept : (i : ℕ) → i ≢ id → w'.pool.bucket i ≡ w.pool.bucket i
  pub queue_shorter : length w.pool.queue ≡ length w'.pool.queue + 1
  pub size_kept : w'.pool.payload_size ≡ w.pool.payload_size
  pub next_kept : w'.pool.next_bucket_id ≡ w.pool.next_bucket_id
  pub held : Held w'.pool id

claims :
    (c : Conn) (w : World) (id : ℕ) (p : Pool)
    → IsFresh w.pool (id, p)
    → c.is_closed ≡ false
    → let w1 : World = record w { pool = p } in
      let w2 : World = record w1 { pool = put_bucket p id (claimed (p.bucket id)) } in
      Claims id c w (record w2 { pool = put_bucket w2.pool id (begun (w2.pool.bucket id)) })
claims c w id p fresh up =
    let w1 : World = record w { pool = p } in
    let w2 : World = record w1 { pool = put_bucket p id (claimed (p.bucket id)) } in
    let w3 : World = record w2 { pool = put_bucket w2.pool id (begun (w2.pool.bucket id)) } in
    let k : Rewrites id w1 w3 =
      Rewrites-trans id w1 w2 w3 (put_bucket-Rewrites id _ w1 refl)
        (put_bucket-Rewrites id _ w2 refl) in
    record {
      idle = record {
        awaits_byte = refl;
        is_up = up;
        at_begin = ground arith;
        no_payload = ground (arith, fresh.empty);
        no_name = ground (arith, fresh.nameless);
        none_received = ground arith;
      };
      inv = Rewrites-Inv id w1 w3 k fresh.left_queue fresh.inv;
      was_free = fresh.was_free;
      left_queue = fresh.left_queue;
      others_queued = fresh.others_queued;
      others_kept = λ i n. k.others i n ∙ fresh.others_kept i n;
      queue_shorter = fresh.queue_shorter;
      size_kept = fresh.payload_size_kept;
      next_kept = fresh.next_kept;
      held = ground (arith, fresh.in_range, fresh.one_reference);
    }

-- An open connection, with no acknowledgement due and no rest of a large chunk to come, takes a
-- bucket from a queue that has one.
pub expect_chunk-Claims :
    (c : Conn) (w : World)
    → Inv w.pool
    → 0 < length w.pool.queue
    → c.is_closed ≡ false
    → Quiet c 0
    → Begins c
    → (id : ℕ) × (w' : World) × (expect_chunk c w ≡ some (tt, next_conn id c, w'))
      × Claims id c w w'
unfolding expect_chunk
expect_chunk-Claims c w v room up q b =
    let full = refill_full w.pool room in
    let (r, e, fresh) = Returns-elim (alloc_chunk_bucket w.pool) (IsFresh w.pool) (
      subst (λ p. Returns (alloc_chunk_bucket w.pool) (IsFresh p)) full
        (alloc_chunk_bucket-IsFresh w.pool v (inl (ground (arith, room))))) in
    let c1 : Conn = record c { current_chunk = r.0 } in
    let w1 : World = record w { pool = put_bucket r.1 r.0 (claimed (r.1.bucket r.0)) } in
    (
      r.0,
      _,
      lift-bind alloc_bucket with_bucket c w (alloc_eq w r.0 r.1 e)
          ∙ begins c1 w1 b
          ∙ begin_chunk_eq c1 w1 up q,
      claims c w r.0 r.1 fresh up,
    )
