-- ===== src/Protocol/Receive/Delivery/Payload.antt =====
-- The payload that completes a message, as the machine takes it (src/RtmpProtocol.cpp).
use bls.Base.{
  ℕ, ◌+◌, ◌%◌, ◌^◌, ◌<◌, ◌≡◌, refl, ap, ap₂, ◌∙◌, Option, none, some, [], ◌∷◌, ◌++◌, arith, ==-refl,
  if◌then◌else◌,
}
use bls.Chunk.{end, Bucket, ChunkHeader}
use bls.Pool.{put_bucket}
use bls.World.{World, Channel}
use bls.Protocol.{Conn, find_channel, and_then, set_channel, the_channel, bind, ◌>>◌}
use bls.Protocol.Message.{Host, msg_decode}
use bls.Protocol.Machine.{
  on_payload, take_payload, payload_state, link_chunk, finish_channel, finish_message, name_chunk,
  is_end, whole_chunk, on_new_chunk, expect_chunk,
}
use bls.Protocol.Receive.Delivery.{the_bucket}
use bls.Protocol.Receive.Delivery.Header.{find_channel-set_channel}

abbrev pub set_recv : ℕ → ChunkHeader → ChunkHeader
set_recv n h = record h { msg_recv = n }

-- The channel with a message that is complete.
abbrev pub completed : Channel → ℕ → Channel
completed v id = record { header = set_recv 0 v.header; chain = v.chain ++ id ∷ [] }

abbrev pub counted_bucket : Bucket → ℕ → Bucket
counted_bucket b n = record b {
  payload_recv_len = b.payload_recv_len + n;
  payload_length = b.payload_length + n;
  header_length = b.header_recv_len;
  state = end;
}

pub the_channel_eq :
    (c : Conn) (w : World) (cid : ℕ) (v : Channel)
    → c.current_channel ≡ some cid
    → find_channel cid c.channels ≡ some v
    → the_channel c w ≡ some ((cid, v), c, w)
the_channel_eq c w cid v a f = ground (arith, a, f)

-- The two changes of the bucket are one.
payload_pool :
    (host : Host) (n : ℕ) (c : Conn) (w : World) (v : Channel)
    → v.header.msg_recv + n ≡ v.header.msg_len
    → v.header.msg_len < 2 ^ 32
    → let p = put_bucket w.pool c.current_chunk (record (the_bucket c w) {
      payload_recv_len = (the_bucket c w).payload_recv_len + n;
      payload_length = (the_bucket c w).payload_length + n;
      header_length = (the_bucket c w).header_recv_len;
    }) in
      let b = p.bucket c.current_chunk in
      put_bucket p c.current_chunk (record b {
        state =
            payload_state host
              (record v { header = set_recv ((v.header.msg_recv + n) % 2 ^ 32) v.header })
              b
              c;
      })
      ≡ put_bucket w.pool c.current_chunk (counted_bucket (the_bucket c w) n)
payload_pool host n c w v l k = ground (arith, l, k)

-- The chunk completes its message.
pub on_payload_last :
    (host : Host) (n : ℕ) (c : Conn) (w : World) (cid : ℕ) (v : Channel)
    → c.current_channel ≡ some cid
    → find_channel cid c.channels ≡ some v
    → v.header.msg_recv + n ≡ v.header.msg_len
    → v.header.msg_len < 2 ^ 32
    → on_payload host n c w
      ≡ on_new_chunk host
          (record c {
            channels =
                set_channel cid
                  (record v { header = set_recv v.header.msg_len v.header })
                  c.channels;
          })
          (record w {
            pool = put_bucket w.pool c.current_chunk (counted_bucket (the_bucket c w) n);
          })
unfolding on_payload
on_payload_last host n c w cid v a f l k =
    bind the_channel (λ x. take_payload host n x.0 x.1) (the_channel_eq c w cid v a f)
    ∙ ap₂ (λ m p. on_new_chunk host (record c { channels = m }) (record w { pool = p }))
        (ap (λ t. set_channel cid (record v { header = set_recv t v.header }) c.channels)
          (omega (arith, l, k)))
        (payload_pool host n c w v l k)

-- The pool once a chunk has the name of the stream that is published.
abbrev pub named : Option ℕ → ℕ → World → World
named none id w = w
named (some s) id w = record w {
  pool =
      put_bucket w.pool id
        (record (w.pool.bucket id) { source_stream_name = some (w.source s).stream_name });
}

pub name_chunk_eq :
    (o : Option ℕ) (c : Conn) (w : World)
    → (the_bucket c w).source_stream_name ≡ none
    → name_chunk o c w ≡ some (tt, c, named o c.current_chunk w)
name_chunk_eq none c w s = refl
name_chunk_eq (some src) c w s = ground (arith, s)

finish_eq :
    (host : Host) (c : Conn) (w : World) (cid : ℕ) (v : Channel)
    → c.current_channel ≡ some cid
    → find_channel cid c.channels ≡ some v
    → v.header.msg_len ≡ v.header.msg_recv
    → finish_message host c w
      ≡ msg_decode host
          (record c {
            channels = set_channel cid (record v { header = set_recv 0 v.header }) c.channels;
          })
          w
finish_eq host c w cid v a f l =
    bind the_channel (λ x. finish_channel host x.0 x.1) (the_channel_eq c w cid v a f)
    ∙ rw (l, ==-refl v.header.msg_recv) refl

pub on_new_chunk_whole :
    (host : Host) (c : Conn) (w : World) (cid : ℕ) (v : Channel)
    → c.current_channel ≡ some cid
    → find_channel cid c.channels ≡ some v
    → v.header.msg_len ≡ v.header.msg_recv
    → (the_bucket c w).state ≡ end
    → (the_bucket c w).source_stream_name ≡ none
    → let linked : Channel = record v { chain = v.chain ++ c.current_chunk ∷ [] } in
      let m = set_channel cid linked c.channels in
      on_new_chunk host c w
      ≡ (msg_decode host >> expect_chunk)
          (record c { channels = set_channel cid (completed v c.current_chunk) m })
          (named c.publish_source c.current_chunk w)
unfolding on_new_chunk
on_new_chunk_whole host c w cid v a f l e s =
    let linked : Channel = record v { chain = v.chain ++ c.current_chunk ∷ [] } in
    let c1 : Conn = record c { channels = set_channel cid linked c.channels } in
    let found : find_channel cid c1.channels ≡ some linked =
      ground (arith, find_channel-set_channel cid cid linked c.channels) in
    bind the_channel (λ x. link_chunk host x.0 x.1) (the_channel_eq c w cid v a f)
    ∙ ap (λ t. (if is_end t then whole_chunk host else expect_chunk) c1 w) e
    ∙ bind (name_chunk c1.publish_source) (λ _. finish_message host >> expect_chunk)
        (name_chunk_eq c1.publish_source c1 w s)
    ∙ ap (and_then (λ _. expect_chunk))
        (finish_eq host c1 (named c1.publish_source c1.current_chunk w) cid linked a found l)
