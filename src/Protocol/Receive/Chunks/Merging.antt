-- ===== src/Protocol/Receive/Chunks/Merging.antt =====
-- The one byte that begins a further chunk, where the channel's last bucket has room for it
-- (src/RtmpProtocol.cpp).
use bls.Base.{
  ℕ, ◌+◌, ◌<◌, ◌≤◌, ◌≡◌, ◌≢◌, refl, ap, ◌∙◌, false, none, some, List, [], ◌∷◌, arith, length, ◌==◌,
}
use bls.Chunk.{Bucket, merge_header, read_payload}
use bls.Pool.{Pool, put_bucket, split_last, free_chunk_bucket}
use bls.Pool.Inv.{Inv}
use bls.Pool.Free.{Held, free_chunk_bucket-Inv}
use bls.Protocol.Receive.Chunks.Keeps.{Held-out}
use bls.Protocol.Receive.Chunks.Next.{read_byte}
use bls.Protocol.Receive.Chunks.Filling.{IsOpen}
use bls.Protocol.Receive.Delivery.Whole.{IsIdle}
use bls.World.{World, Channel}
use bls.World.Rewrites.{Rewrites, put_bucket-Rewrites, Rewrites-Inv}
use bls.Protocol.{Conn, in_payload, find_channel, set_channel}
use bls.Protocol.Client.{read_n}
use bls.Protocol.Control.{counted}
use bls.Protocol.Header.{expect_payload_len}
use bls.Protocol.Message.{Host}
use bls.Protocol.Receive.{read_cb, on_message_header, merge_into}
use bls.Protocol.Receive.Delivery.{Quiet, started, the_bucket}

abbrev counted_header : Bucket → Bucket
counted_header b = record b { header_recv_len = b.header_recv_len + 0 }

-- The pool without the bucket that the byte came in.
abbrev freed : Conn → World → Pool
freed c w =
    free_chunk_bucket (put_bucket w.pool c.current_chunk (counted_header (the_bucket c w)))
      c.current_chunk

on_message_header_eq :
    (buf : ℕ → ℕ) (c : Conn) (w : World) (cid last : ℕ) (before : List ℕ) (v : Channel)
    → (the_bucket c w).format ≡ 3
    → (the_bucket c w).chunk_id ≡ cid
    → find_channel cid c.channels ≡ some v
    → split_last v.chain ≡ some (before, last)
    → last ≢ c.current_chunk
    → (w.pool.bucket last).state ≡ merge_header
    → on_message_header buf 0 c w
      ≡ merge_into cid v before last
          (record c { current_channel = some cid })
          (record w { pool = put_bucket w.pool c.current_chunk (counted_header (the_bucket c w)) })
unfolding on_message_header
on_message_header_eq buf c w cid last before v f i e s ne m = ground (f, i, e, s, ne, m, arith)

merge_into_eq :
    (c : Conn) (w : World) (cid last n : ℕ) (before : List ℕ) (v : Channel)
    → c.is_closed ≡ false
    → expect_payload_len v.header c.chunk_size ≡ n
    → n ≢ 0
    → let p = free_chunk_bucket w.pool c.current_chunk in
      merge_into cid v before last c w
      ≡ some (
        tt,
        record c {
          channels = set_channel cid (record v { chain = before }) c.channels;
          current_chunk = last;
          reading = some (started last in_payload (p.bucket last).payload_recv_len n);
        },
        record w { pool = put_bucket p last (record (p.bucket last) { state = read_payload }) },
      )
unfolding read_n
merge_into_eq c w cid last n before v up e pn =
    let some_n : (n == 0) ≡ false = ground (arith, pn) in rw (e, some_n, up) refl

-- The connection once the byte has come: its last bucket is read on.
abbrev pub merged_conn : ℕ → ℕ → ℕ → ℕ → List ℕ → Channel → Conn → Conn
merged_conn cid last k n before v c = record (counted 0 (counted 1 c)) {
  channels = set_channel cid (record v { chain = before }) c.channels;
  current_channel = some cid;
  current_chunk = last;
  reading = some (started last in_payload k n);
}

-- What becomes of the pool: the bucket of the byte is let go, the last one is read on, and the others
-- are as they were.
pub record Reopens (free last : ℕ) (w w' : World) : Type 0 where
  pub inv : Inv w'.pool
  pub reopened : w'.pool.bucket last ≡ record (w.pool.bucket last) { state = read_payload }
  pub others : (i : ℕ) → i ≢ free → i ≢ last → w'.pool.bucket i ≡ w.pool.bucket i
  pub queue_longer : length w.pool.queue ≤ length w'.pool.queue
  pub next_kept : w'.pool.next_bucket_id ≡ w.pool.next_bucket_id
  pub size_kept : w'.pool.payload_size ≡ w.pool.payload_size

reopens :
    (id last : ℕ) (w : World)
    → Inv w.pool
    → Held w.pool id
    → Held w.pool last
    → last ≢ id
    → let w1 : World = record w {
      pool = put_bucket w.pool id (counted_header (w.pool.bucket id));
    } in
      let p = free_chunk_bucket w1.pool id in
      Reopens id last w
        (record w1 { pool = put_bucket p last (record (p.bucket last) { state = read_payload }) })
unfolding free_chunk_bucket
reopens id last w v h hl ne =
    let w1 : World = record w { pool = put_bucket w.pool id (counted_header (w.pool.bucket id)) } in
    let r1 = put_bucket-Rewrites id (counted_header (w.pool.bucket id)) w refl in
    let v1 = Rewrites-Inv id w w1 r1 (Held-out w id v h) v in
    let h1 : Held w1.pool id = ground (arith, h) in
    let w2 : World = record w1 { pool = free_chunk_bucket w1.pool id } in
    let v2 = free_chunk_bucket-Inv w1.pool id v1 h1 in
    let kept : w2.pool.bucket last ≡ w.pool.bucket last = ground (arith, ne) in
    let held2 : Held w2.pool last = ground (arith, hl, kept) in
    let r3 =
      put_bucket-Rewrites last (record (w2.pool.bucket last) { state = read_payload }) w2 refl in
    record {
      inv = Rewrites-Inv last w2 _ r3 (Held-out w2 last v2 held2) v2;
      reopened = ground (arith, kept);
      others = λ i a b. ground (arith, a, b);
      queue_longer = ground arith;
      next_kept = ground arith;
      size_kept = ground arith;
    }

abbrev reopened_bucket : Bucket → Bucket
reopened_bucket b = record b { state = read_payload }

freed_kept :
    (id last : ℕ) (p : Pool)
    → last ≢ id
    → (free_chunk_bucket (put_bucket p id (counted_header (p.bucket id))) id).bucket last
      ≡ p.bucket last
unfolding free_chunk_bucket
freed_kept id last p ne = ground (arith, ne)

Rewrites-Reopens :
    (id last : ℕ) (u v w : World)
    → last ≢ id
    → Rewrites id u v
    → Reopens id last v w
    → Reopens id last u w
Rewrites-Reopens id last u v w ne a b = record {
  inv = b.inv;
  reopened = b.reopened ∙ ap reopened_bucket (a.others last ne);
  others = λ i x y. b.others i x y ∙ a.others i x;
  queue_longer = omega (arith, b.queue_longer, ap length a.queue_kept);
  next_kept = b.next_kept ∙ a.next_kept;
  size_kept = b.size_kept ∙ a.size_kept;
}

pub read_merging :
    (host : Host) (cid last n size : ℕ) (before : List ℕ) (v : Channel) (c : Conn) (w : World)
    → IsIdle c w
    → Quiet c 1
    → 2 ≤ cid
    → cid < 64
    → find_channel cid c.channels ≡ some v
    → split_last v.chain ≡ some (before, last)
    → last ≢ c.current_chunk
    → IsOpen size (w.pool.bucket last)
    → Inv w.pool
    → Held w.pool c.current_chunk
    → Held w.pool last
    → expect_payload_len v.header c.chunk_size ≡ n
    → n ≢ 0
    → (w' : World) × (read_cb host ((192 + cid) ∷ []) c w
        ≡ some (tt, merged_conn cid last (w.pool.bucket last).payload_length n before v c, w'))
      × Reopens c.current_chunk last w w'
read_merging host cid last n size before v c w idle q lo hi f s ne op inv h hl en pn =
    let (w1, e1, st, r1) = read_byte host cid c w idle q lo hi in
    let id = c.current_chunk in
    let c1 : Conn = counted 0 (counted 1 (record c { reading = none })) in
    let inv1 = Rewrites-Inv id w w1 r1 (Held-out w id inv h) inv in
    let same = r1.others last ne in
    let held1 : Held w1.pool id = ground (arith, h, r1.ref_kept, r1.next_kept) in
    let held1_last : Held w1.pool last = ground (arith, hl, same, r1.next_kept) in
    let opens = reopens id last w1 inv1 held1 held1_last ne in
    let w2 : World = record w1 {
      pool = put_bucket w1.pool id (counted_header (w1.pool.bucket id));
    } in
    let p = free_chunk_bucket w2.pool id in
    let recv : (p.bucket last).payload_recv_len ≡ (w.pool.bucket last).payload_length =
      ap (λ b. b.payload_recv_len) (freed_kept id last w1.pool ne ∙ same) ∙ op.received in
    (
      _,
      e1
          ∙ on_message_header_eq (λ _. 0) c1 w1 cid last before v st.has_format st.has_chunk_id f s
              ne (ap (λ b. b.state) same ∙ op.in_state)
          ∙ merge_into_eq (record c1 { current_channel = some cid }) w2 cid last n before v
              idle.is_up en pn
          ∙ ap
              (λ k. some (
                tt,
                merged_conn cid last k n before v c,
                record w2 {
                  pool = put_bucket p last (record (p.bucket last) { state = read_payload });
                },
              ))
              recv,
      Rewrites-Reopens id last w w1 _ ne r1 opens,
    )
