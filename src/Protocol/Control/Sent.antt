-- ===== src/Protocol/Control/Sent.antt =====
-- What sending a control message does.
use bls.Base.{
  subst, sym, ap, ==-refl, ℕ, ◌+◌, ◌%◌, ◌^◌, ◌≤◌, ◌<◌, ◌≡◌, ◌≢◌, refl, ◌∙◌, ◌⊎◌, true, none, some,
  List, [], ◌∷◌, ◌++◌, arith, Returns, Returns-elim, length, peek, peek-poke, poke, leb, le→leb,
}
use bls.Chunk.{Bucket}
use bls.Chunk.Wrap.{wrap_chunk_header}
use bls.Chunk.Wrap.Layout.{IsWrapped, wrap_chunk_header-IsWrapped, basic_header, message_header}
use bls.Pool.{
  Pool, put_bucket, refill, alloc_chunk_bucket, add_reference, free_chunk_bucket, free_chain,
}
use bls.Pool.Inv.{Inv}
use bls.Pool.Alloc.{IsFresh, alloc_chunk_bucket-IsFresh, payload_size-refill}
use bls.World.{World, both, update}
use bls.World.Buckets.{wrap, fill_payload, alloc_bucket, free_bucket}
use bls.World.Writes.{rtmp_write_chunk}
use bls.World.Encode.Made.{Made, made}
use bls.Pool.Chains.{free_chain-add_references}
use bls.Pool.Free.{count-cons}
use bls.Pool.Inv.{count-nil}
use bls.Protocol.{Conn, P, lift, lift-bind, ◌>>◌}
use bls.Protocol.Control.{send_control}

-- The pool can give a bucket.
abbrev pub HasBucket : Pool → Type 0
HasBucket p = (p.queue ≢ []) ⊎ ((0 < p.pool_size) × (p.add_pool_count < 100))

-- The world after a control message: one more write, of a bucket that nobody else holds.
pub record Sent (c : Conn) (w : World) (type_id : ℕ) (payload : List ℕ)
    (r : Unit {0} × Conn × World) : Type 0 where
  pub bucket : ℕ
  pub pending :
      (r.2.socket c.client).pending
      ≡ (w.socket c.client).pending ++ record { bucket = bucket; part = both; custom = none } ∷ []
  pub on_wire :
      peek (r.2.pool.bucket bucket).header 0 (r.2.pool.bucket bucket).header_length
      ≡ basic_header 0 2 ++ message_header 0 0 (length payload) type_id 0
  pub content :
      peek (r.2.pool.bucket bucket).payload 0 (r.2.pool.bucket bucket).payload_length ≡ payload
  pub one_reference : (r.2.pool.bucket bucket).ref_count ≡ 1
  pub conn_kept : r.1 ≡ c
  pub inv : Inv r.2.pool
  pub queue_shorter : length (refill w.pool).queue ≡ length r.2.pool.queue + 1
  pub payload_size_kept : r.2.pool.payload_size ≡ w.pool.payload_size
  pub still_open : (r.2.socket c.client).is_open ≡ (w.socket c.client).is_open

-- The world that a control message leaves, from what the pool and the wrapping gave it.
module _ (c : Conn) (w : World) (type_id : ℕ) (payload : List ℕ) (id : ℕ) (p : Pool)
    (b : Bucket) where
  abbrev filled : Bucket
  filled = record b { payload = poke b.payload 0 payload; payload_length = length payload }

  abbrev filled_pool : Pool
  filled_pool = put_bucket (put_bucket p id b) id filled

  abbrev sent_world : World
  sent_world = record w {
    pool = free_chunk_bucket (add_reference filled_pool id) id;
    socket = update w.socket c.client (record (w.socket c.client) {
      send_bytes = ((w.socket c.client).send_bytes + (b.header_length + length payload)) % 2 ^ 64;
      pending =
          (w.socket c.client).pending ++ record { bucket = id; part = both; custom = none } ∷ [];
    });
  }

  wrap_eq :
      wrap_chunk_header (p.bucket id) 0 2 0 (length payload) type_id 0 ≡ some b
      → wrap id 0 2 0 (length payload) type_id 0 (record w { pool = p })
        ≡ some (tt, record w { pool = put_bucket p id b })
  wrap_eq f = ground (arith, f)

  fill_eq :
      leb (length payload) p.payload_size ≡ true
      → fill_payload id payload (record w { pool = put_bucket p id b })
        ≡ some (tt, record w { pool = filled_pool })
  fill_eq f = ground (arith, f)

  write_eq :
      (w.socket c.client).is_open ≡ true
      → rtmp_write_chunk c.client id none (record w { pool = filled_pool })
        ≡ some (tt, record sent_world { pool = add_reference filled_pool id })
  unfolding rtmp_write_chunk
  write_eq f = ground (arith, f)

  alloc_eq :
      alloc_chunk_bucket w.pool ≡ some (id, p) → alloc_bucket w ≡ some (id, record w { pool = p })
  alloc_eq e = ground (arith, e)

  abbrev step_wrap : ℕ → P (Unit {0})
  step_wrap i = lift (wrap i 0 2 0 (length payload) type_id 0)

  abbrev step_fill : ℕ → P (Unit {0})
  step_fill i = lift (fill_payload i payload)

  abbrev step_write : ℕ → P (Unit {0})
  step_write i = lift (rtmp_write_chunk c.client i none)

  abbrev step_free : ℕ → P (Unit {0})
  step_free i = lift (free_bucket i)

  send_eq :
      alloc_chunk_bucket w.pool ≡ some (id, p)
      → wrap_chunk_header (p.bucket id) 0 2 0 (length payload) type_id 0 ≡ some b
      → leb (length payload) p.payload_size ≡ true
      → (w.socket c.client).is_open ≡ true
      → send_control type_id payload c w ≡ some (tt, c, sent_world)
  unfolding send_control
  send_eq e f g h =
      lift-bind alloc_bucket (λ i. step_wrap i >> (step_fill i >> (step_write i >> step_free i))) c
        w (alloc_eq e)
      ∙ lift-bind (wrap id 0 2 0 (length payload) type_id 0)
          (λ _. step_fill id >> (step_write id >> step_free id)) c (record w { pool = p })
          (wrap_eq f)
      ∙ lift-bind (fill_payload id payload) (λ _. step_write id >> step_free id) c
          (record w { pool = put_bucket p id b }) (fill_eq g)
      ∙ lift-bind (rtmp_write_chunk c.client id none) (λ _. step_free id) c
          (record w { pool = filled_pool }) (write_eq h)

-- A reference that a write takes and its sender drops.
written_once :
    (p : Pool) (id : ℕ)
    → (p.bucket id).ref_count ≡ 1
    → free_chunk_bucket (add_reference p id) id ≡ p
unfolding free_chain
written_once p id h =
    free_chain-add_references (id ∷ []) p
      (λ i n. ground (arith, n, h, count-cons i id [], count-nil i))

sent_lem :
    (c : Conn) (w : World) (type_id : ℕ) (payload : List ℕ) (id : ℕ) (p : Pool) (b : Bucket)
    → IsWrapped
        (p.bucket id)
        0
        2
        (basic_header 0 2 ++ message_header 0 0 (length payload) type_id 0)
        b
    → (p.bucket id).ref_count ≡ 1
    → Made
        (record w { pool = refill w.pool })
        (basic_header 0 2 ++ message_header 0 0 (length payload) type_id 0)
        payload
        (id, record w { pool = filled_pool c w type_id payload id p b })
    → Sent c w type_id payload (tt, c, sent_world c w type_id payload id p b)
unfolding free_chunk_bucket add_reference
sent_lem c w type_id payload id p b wrapped one m = record {
  bucket = id;
  pending = ground arith;
  on_wire = ground (arith, wrapped.on_wire, wrapped.ref_kept);
  content = ground (arith, peek-poke payload b.payload 0, wrapped.ref_kept);
  one_reference = ground (arith, wrapped.ref_kept);
  conn_kept = refl;
  inv = subst Inv (sym same) m.inv;
  queue_shorter = m.queue_shorter ∙ ap (λ q. length q.queue + 1) (sym same);
  payload_size_kept = ap Pool.payload_size same ∙ m.payload_size_kept ∙ payload_size-refill w.pool;
  still_open = rw (==-refl c.client) refl;
}
  where
    filled_id :
        (filled_pool c w type_id payload id p b).bucket id ≡ filled c w type_id payload id p b
    filled_id = rw (==-refl id) refl

    same : (sent_world c w type_id payload id p b).pool ≡ filled_pool c w type_id payload id p b
    same =
        written_once (filled_pool c w type_id payload id p b) id
          (ap Bucket.ref_count filled_id ∙ wrapped.ref_kept ∙ one)

-- If the pool can give a bucket that holds the payload and the socket is open, the message goes out in
-- one write of one bucket: its header is the format's layout of a control message of that type and
-- length on chunk stream 2, its payload is the given one, and the write holds the only reference to
-- it. The connection and all that the socket had pending are as before, the socket is still open, and
-- the pool keeps its ownership and has one bucket less to give.
pub send_control-Sent :
    (c : Conn) (w : World) (type_id : ℕ) (payload : List ℕ)
    → Inv w.pool
    → HasBucket w.pool
    → length payload ≤ w.pool.payload_size
    → (w.socket c.client).is_open ≡ true
    → Returns (send_control type_id payload c w) (Sent c w type_id payload)
unfolding free_chunk_bucket add_reference
send_control-Sent c w type_id payload v room fits is_up =
    let (r, e, fresh) =
      Returns-elim (alloc_chunk_bucket w.pool) (IsFresh (refill w.pool))
        (alloc_chunk_bucket-IsFresh w.pool v room) in
    let (b, f, wrapped) =
      Returns-elim (wrap_chunk_header (r.1.bucket r.0) 0 2 0 (length payload) type_id 0)
        (IsWrapped (r.1.bucket r.0) 0 2
          (basic_header 0 2 ++ message_header 0 0 (length payload) type_id 0))
        (wrap_chunk_header-IsWrapped (r.1.bucket r.0) 0 2 0 (length payload) type_id 0 (omega arith)
          (omega arith)) in
    let room_for : leb (length payload) r.1.payload_size ≡ true =
      le→leb _ _ (omega (arith, fits, fresh.payload_size_kept, payload_size-refill w.pool)) in
    rw (send_eq c w type_id payload r.0 r.1 b e f room_for is_up) (
      sent_lem c w type_id payload r.0 r.1 b wrapped fresh.one_reference
        (made (record w { pool = refill w.pool }) r.0 r.1 b payload _ 0 2 fresh wrapped))
