-- ===== src/Protocol/Receive/Chunks/Filling.antt =====
-- The read of a payload that does not complete its message (src/RtmpProtocol.cpp).
use bls.Base.{
  Option, length-append, peek-poke_behind, ◌⊎◌, inl, inr, Bool-cases, sym, subst, ◌-◌, ltb,
  if◌then◌else◌, ℕ, ◌+◌, ◌-◌, ◌^◌, ◌<◌, ◌≤◌, ◌≡◌, refl, ap, ◌∙◌, none, some, List, [], ◌∷◌, ◌++◌,
  arith, length, poke, ==-refl,
}
use bls.Chunk.{merge_header, ChunkState, end, Bucket}
use bls.Pool.{put_bucket}
use bls.World.{World, Channel}
use bls.World.Rewrites.{Rewrites, Rewrites-trans, put_bucket-Rewrites}
use bls.Protocol.{Conn, in_payload, find_channel, set_channel}
use bls.Protocol.Control.{counted}
use bls.Protocol.Message.{Host}
use bls.Protocol.Machine.{on_new_chunk, expect_chunk}
use bls.Protocol.Receive.{read_cb, machine_in, read_area, stored}
use bls.Protocol.Receive.Fragments.{bucket-put_bucket}
use bls.Protocol.Receive.Delivery.{Quiet, started, read_whole, machine_step, the_bucket}
use bls.Protocol.Receive.Delivery.Header.{find_channel-set_channel}
use bls.Protocol.Receive.Delivery.Payload.{counted_bucket, named}
use bls.Protocol.Receive.Delivery.Last.{Filled, Open, stored-behind, named-Filled, named-Rewrites}
use bls.Protocol.Receive.Chunks.Piece.{
  received_of, piece_state_of, on_payload_piece, on_new_chunk_piece, on_new_chunk_open,
}

-- The connection after the read of such a payload: the bucket is at the end of the channel's chain.
abbrev pub linked_conn : ℕ → Channel → ℕ → Conn → Conn
linked_conn cid v n c = record (counted n c) {
  reading = none;
  channels =
      set_channel cid (record (received_of n v) { chain = v.chain ++ c.current_chunk ∷ [] })
        (set_channel cid (received_of n v) c.channels);
}

-- A bucket that waits for more, and has room for a chunk.
pub record IsOpen (size : ℕ) (b : Bucket) : Type 0 where
  pub in_state : b.state ≡ merge_header
  pub received : b.payload_recv_len ≡ b.payload_length
  pub has_room : b.payload_length + size ≤ 8192
  pub is_unnamed : b.source_stream_name ≡ none

-- A bucket that a piece has gone into: it is finished, or waits for more.
abbrev pub Mode : ℕ → Bucket → Type 0
Mode size b = (b.state ≡ end) ⊎ IsOpen size b

-- A step that fills a bucket.
pub record Fills (id size : ℕ) (all : List ℕ) (w w' : World) : Type 0 where
  pub filled : Filled all (w'.pool.bucket id)
  pub mode : Mode size (w'.pool.bucket id)
  pub rewrites : Rewrites id w w'

named-end :
    (o : Option ℕ) (id : ℕ) (b : Bucket) (w : World)
    → w.pool.bucket id ≡ b
    → b.state ≡ end
    → ((named o id w).pool.bucket id).state ≡ end
named-end none id b w e f = ap (λ b. b.state) e ∙ f
named-end (some s) id b w e f =
    ap (λ b. b.state) (bucket-put_bucket w.pool id _) ∙ ap (λ b. b.state) e ∙ f

-- The bucket with the bytes of a read behind the old ones, in the state that the machine gives it.
abbrev behind : Bucket → List ℕ → List ℕ → ChunkState → Bucket
behind b old piece s =
    record (counted_bucket (record b { payload = poke b.payload (length old) piece })
      (length piece)) { state = s }

behind-Filled :
    (b : Bucket) (old piece : List ℕ) (s : ChunkState)
    → Open old b
    → Filled (old ++ piece) (behind b old piece s)
behind-Filled b old piece s o = record {
  content = peek-poke_behind old piece b.payload o.content;
  size = omega (arith, o.size, length-append old piece);
}

pub read_piece :
    (host : Host) (cid size : ℕ) (v : Channel) (old piece : List ℕ) (c : Conn) (w : World)
    → c.reading ≡ some (started c.current_chunk in_payload (length old) (length piece))
    → c.current_channel ≡ some cid
    → Open old (the_bucket c w)
    → find_channel cid c.channels ≡ some v
    → v.header.msg_recv + length piece < v.header.msg_len
    → v.header.msg_len < 2 ^ 32
    → length old + length piece ≤ 8192
    → c.chunk_size ≡ size
    → 8192 ≤ w.pool.payload_size
    → Quiet c (length piece)
    → (w' : World) × (read_cb host piece c w ≡ expect_chunk (linked_conn cid v (length piece) c) w')
      × Fills c.current_chunk size (old ++ piece) w w'
read_piece host cid size v old piece c w e cur op fc more big lim k room q =
    let n = length piece in
    let id = c.current_chunk in
    let r = started id in_payload (length old) n in
    let u = stored r piece w in
    let buf = read_area (the_bucket c u) in_payload (length old) in
    let c0 : Conn = counted n (record c { reading = none }) in
    let same = stored-behind old piece id w in
    let got = received_of n v in
    let c1 : Conn = record c0 { channels = set_channel cid got c.channels } in
    let found : find_channel cid c1.channels ≡ some got =
      find_channel-set_channel cid cid got c.channels ∙ rw (==-refl cid) refl in
    let after : ChunkState → World = λ s. record u {
      pool = put_bucket u.pool id (record (counted_bucket (the_bucket c u) n) { state = s });
    } in
    let all : (s : ChunkState) → the_bucket c1 (after s) ≡ behind (the_bucket c w) old piece s =
      λ s.
        bucket-put_bucket u.pool id _
        ∙ ap (λ (b : Bucket). record (counted_bucket b n) { state = s }) same in
    let kept : (s : ChunkState) → Rewrites id w (after s) = λ s.
      Rewrites-trans id w u (after s) (put_bucket-Rewrites id _ w refl)
        (put_bucket-Rewrites id _ u refl) in
    let comes : (s : ChunkState)
        → piece_state_of c (length old + n) ≡ s
        → read_cb host piece c w ≡ on_new_chunk host c1 (after s) =
      λ s f.
        read_whole host piece c w id in_payload (length old) e (ground (arith, room, lim))
        ∙ machine_step host buf n (record c { reading = none }) u q
        ∙ ap (λ t. machine_in host t buf n c0 u) (ap (λ b. b.state) same ∙ op.in_state)
        ∙ on_payload_piece host n (length old) c0 u cid v s cur fc
            (ap (λ b. b.payload_recv_len) same ∙ op.received) lim f more big in
    elim (Bool-cases (ltb (8192 - (length old + n)) c.chunk_size)) [
      | inl full ↦
          let last = ap (λ b. b.state) (all end) in
          (
            named c.publish_source id (after end),
            comes end (ap (λ b. if b then end else merge_header) full)
                ∙ on_new_chunk_piece host c1 (after end) cid got cur found more last
                    (ap (λ b. b.source_stream_name) (all end) ∙ op.is_unnamed),
            record {
              filled =
                  named-Filled c.publish_source id _ (after end) (old ++ piece) (all end)
                    (behind-Filled (the_bucket c w) old piece end op);
              mode = inl (named-end c.publish_source id _ (after end) (all end) refl);
              rewrites =
                  Rewrites-trans id w (after end) _ (kept end)
                    (named-Rewrites c.publish_source id (after end));
            },
          )
      | inr part ↦ (
        after merge_header,
        comes merge_header (ap (λ b. if b then end else merge_header) part)
            ∙ on_new_chunk_open host c1 (after merge_header) cid got cur found
                (ap (λ b. b.state) (all merge_header)),
        record {
          filled =
              subst (Filled (old ++ piece)) (sym (all merge_header))
                (behind-Filled (the_bucket c w) old piece merge_header op);
          mode = inr (
              subst (IsOpen size) (sym (all merge_header)) (record {
                in_state = refl;
                received = omega (arith, op.size, op.received);
                has_room = ground (arith, op.size, part, k, lim);
                is_unnamed = op.is_unnamed;
              }));
          rewrites = kept merge_header;
        },
      )
    ]
