-- ===== src/Protocol/Receive/Chunks/Piece.antt =====
-- A payload that does not complete its message, as the machine takes it (src/RtmpProtocol.cpp).
use bls.Base.{
  ◌||◌, ◌-◌, ◌==◌, false, ltb, if◌then◌else◌, ◌==◌, ap₂, ℕ, ◌+◌, ◌-◌, ◌%◌, ◌^◌, ◌<◌, ◌≤◌, ◌≡◌, refl,
  ap, ◌∙◌, none, some, [], ◌∷◌, ◌++◌, arith,
}
use bls.Chunk.{merge_header, ChunkState, end, Bucket}
use bls.Pool.{put_bucket}
use bls.World.{World, Channel}
use bls.Protocol.{Conn, find_channel, set_channel, the_channel, bind, and_then, ◌>>◌}
use bls.Protocol.Message.{Host}
use bls.Protocol.Machine.{
  on_payload, take_payload, payload_state, link_chunk, finish_channel, finish_message, name_chunk,
  is_end, whole_chunk, on_new_chunk, expect_chunk,
}
use bls.Protocol.Receive.Fragments.{bucket-put_bucket, put_bucket-put_bucket}
use bls.Protocol.Receive.Delivery.{the_bucket}
use bls.Protocol.Receive.Delivery.Header.{find_channel-set_channel}
use bls.Protocol.Receive.Delivery.Payload.{
  set_recv, counted_bucket, named, the_channel_eq, name_chunk_eq,
}

-- The channel, once it has received so much of its message.
abbrev pub received_of : ℕ → Channel → Channel
received_of n v = record v { header = set_recv (v.header.msg_recv + n) v.header }

-- The state of a bucket after a piece that leaves something to come: it is finished if a further chunk
-- may not fit.
abbrev pub piece_state_of : Conn → ℕ → ChunkState
piece_state_of c n = if ltb (8192 - n) c.chunk_size then end else merge_header

piece_state :
    (host : Host) (v : Channel) (b : Bucket) (c : Conn) (n : ℕ)
    → b.payload_recv_len ≡ n
    → n ≤ 8192
    → v.header.msg_recv < v.header.msg_len
    → payload_state host v b c ≡ piece_state_of c n
piece_state host v b c n r lim more =
    let missing : (v.header.msg_recv == v.header.msg_len) ≡ false = ground (arith, more) in
    let left : (8192 + (2 ^ 64 - b.payload_recv_len)) % 2 ^ 64 ≡ 8192 - n = omega (arith, r, lim) in
    ap
      (λ t.
        if t || ltb ((8192 + (2 ^ 64 - b.payload_recv_len)) % 2 ^ 64) c.chunk_size
        then end
        else merge_header)
      missing
    ∙ ap (λ m. if ltb m c.chunk_size then end else merge_header) left

abbrev in_state : ChunkState → Bucket → Bucket
in_state s b = record b { state = s }

piece_pool :
    (host : Host) (n old : ℕ) (c : Conn) (w : World) (v : Channel) (s : ChunkState)
    → (the_bucket c w).payload_recv_len ≡ old
    → old + n ≤ 8192
    → piece_state_of c (old + n) ≡ s
    → v.header.msg_recv < v.header.msg_len
    → let p = put_bucket w.pool c.current_chunk (record (the_bucket c w) {
      payload_recv_len = (the_bucket c w).payload_recv_len + n;
      payload_length = (the_bucket c w).payload_length + n;
      header_length = (the_bucket c w).header_recv_len;
    }) in
      let b = p.bucket c.current_chunk in
      put_bucket p c.current_chunk (record b { state = payload_state host v b c })
      ≡ put_bucket w.pool c.current_chunk (in_state s (counted_bucket (the_bucket c w) n))
piece_pool host n old c w v s r lim f more =
    let id = c.current_chunk in
    let taken : Bucket = record (the_bucket c w) {
      payload_recv_len = (the_bucket c w).payload_recv_len + n;
      payload_length = (the_bucket c w).payload_length + n;
      header_length = (the_bucket c w).header_recv_len;
    } in
    let p = put_bucket w.pool id taken in
    let same : p.bucket id ≡ taken = bucket-put_bucket w.pool id taken in
    let recv : (p.bucket id).payload_recv_len ≡ old + n =
      ap (λ b. b.payload_recv_len) same ∙ ap (λ m. m + n) r in
    ap (λ s. put_bucket p id (record (p.bucket id) { state = s }))
      (piece_state host v (p.bucket id) c (old + n) recv lim more ∙ f)
    ∙ ap (λ b. put_bucket p id (in_state s b)) same
    ∙ put_bucket-put_bucket w.pool id taken (in_state s taken)

-- The chunk leaves something of its message to come.
pub on_payload_piece :
    (host : Host) (n old : ℕ) (c : Conn) (w : World) (cid : ℕ) (v : Channel) (s : ChunkState)
    → c.current_channel ≡ some cid
    → find_channel cid c.channels ≡ some v
    → (the_bucket c w).payload_recv_len ≡ old
    → old + n ≤ 8192
    → piece_state_of c (old + n) ≡ s
    → v.header.msg_recv + n < v.header.msg_len
    → v.header.msg_len < 2 ^ 32
    → on_payload host n c w
      ≡ on_new_chunk host
          (record c { channels = set_channel cid (received_of n v) c.channels })
          (record w {
            pool =
                put_bucket w.pool c.current_chunk (in_state s (counted_bucket (the_bucket c w) n));
          })
unfolding on_payload
on_payload_piece host n old c w cid v s a f r lim st more big =
    let got : Channel = record v {
      header = set_recv ((v.header.msg_recv + n) % 2 ^ 32) v.header;
    } in
    let c1 : Conn = record c { channels = set_channel cid got c.channels } in
    let small : (v.header.msg_recv + n) % 2 ^ 32 ≡ v.header.msg_recv + n =
      omega (arith, more, big) in
    bind the_channel (λ x. take_payload host n x.0 x.1) (the_channel_eq c w cid v a f)
    ∙ ap₂ (λ m p. on_new_chunk host (record c { channels = m }) (record w { pool = p }))
        (ap (λ t. set_channel cid (record v { header = set_recv t v.header }) c.channels) small)
        (piece_pool host n old c1 w got s r lim st (omega (arith, small, more)))

not_finished :
    (host : Host) (c : Conn) (w : World) (cid : ℕ) (v : Channel)
    → c.current_channel ≡ some cid
    → find_channel cid c.channels ≡ some v
    → v.header.msg_recv < v.header.msg_len
    → finish_message host c w ≡ some (tt, c, w)
not_finished host c w cid v a f l =
    let more : (v.header.msg_len == v.header.msg_recv) ≡ false = ground (arith, l) in
    bind the_channel (λ x. finish_channel host x.0 x.1) (the_channel_eq c w cid v a f)
    ∙ rw more refl

pub on_new_chunk_piece :
    (host : Host) (c : Conn) (w : World) (cid : ℕ) (v : Channel)
    → c.current_channel ≡ some cid
    → find_channel cid c.channels ≡ some v
    → v.header.msg_recv < v.header.msg_len
    → (the_bucket c w).state ≡ end
    → (the_bucket c w).source_stream_name ≡ none
    → let linked : Channel = record v { chain = v.chain ++ c.current_chunk ∷ [] } in
      on_new_chunk host c w
      ≡ expect_chunk
          (record c { channels = set_channel cid linked c.channels })
          (named c.publish_source c.current_chunk w)
unfolding on_new_chunk
on_new_chunk_piece host c w cid v a f l e s =
    let linked : Channel = record v { chain = v.chain ++ c.current_chunk ∷ [] } in
    let c1 : Conn = record c { channels = set_channel cid linked c.channels } in
    let w1 = named c1.publish_source c1.current_chunk w in
    let found : find_channel cid c1.channels ≡ some linked =
      ground (arith, find_channel-set_channel cid cid linked c.channels) in
    bind the_channel (λ x. link_chunk host x.0 x.1) (the_channel_eq c w cid v a f)
    ∙ ap (λ t. (if is_end t then whole_chunk host else expect_chunk) c1 w) e
    ∙ bind (name_chunk c1.publish_source) (λ _. finish_message host >> expect_chunk)
        (name_chunk_eq c1.publish_source c1 w s)
    ∙ ap (and_then (λ _. expect_chunk)) (not_finished host c1 w1 cid linked a found l)

-- A chunk that leaves room for more goes to the chain, unfinished.
pub on_new_chunk_open :
    (host : Host) (c : Conn) (w : World) (cid : ℕ) (v : Channel)
    → c.current_channel ≡ some cid
    → find_channel cid c.channels ≡ some v
    → (the_bucket c w).state ≡ merge_header
    → let linked : Channel = record v { chain = v.chain ++ c.current_chunk ∷ [] } in
      on_new_chunk host c w
      ≡ expect_chunk (record c { channels = set_channel cid linked c.channels }) w
unfolding on_new_chunk
on_new_chunk_open host c w cid v a f e =
    let linked : Channel = record v { chain = v.chain ++ c.current_chunk ∷ [] } in
    let c1 : Conn = record c { channels = set_channel cid linked c.channels } in
    bind the_channel (λ x. link_chunk host x.0 x.1) (the_channel_eq c w cid v a f)
    ∙ ap (λ t. (if is_end t then whole_chunk host else expect_chunk) c1 w) e
