-- ===== src/Protocol/Receive/Delivery/Last.antt =====
-- The read of a payload that completes a message (src/RtmpProtocol.cpp).
use bls.Base.{
  length-append, peek-poke_behind, sym, subst, ℕ, ◌+◌, ◌^◌, ◌<◌, ◌≤◌, ◌≡◌, refl, ap, ◌∙◌, Option,
  none, some, List, [], ◌∷◌, ◌++◌, arith, length, peek, poke, ==-refl,
}
use bls.Chunk.{ChunkHeader, Bucket, read_payload}
use bls.Pool.{put_bucket}
use bls.World.{World, Channel}
use bls.World.Rewrites.{Rewrites, Rewrites-refl, Rewrites-trans, put_bucket-Rewrites}
use bls.Protocol.{Conn, in_payload, find_channel, set_channel, ◌>>◌}
use bls.Protocol.Control.{counted}
use bls.Protocol.Message.{Host, msg_decode}
use bls.Protocol.Machine.{expect_chunk}
use bls.Protocol.Receive.{read_cb, machine_in, read_area, stored}
use bls.Protocol.Receive.Fragments.{bucket-put_bucket}
use bls.Protocol.Receive.Delivery.{Quiet, started, read_whole, machine_step, the_bucket}
use bls.Protocol.Receive.Delivery.Header.{find_channel-set_channel}
use bls.Protocol.Receive.Delivery.Payload.{
  set_recv, completed, counted_bucket, on_payload_last, named, on_new_chunk_whole,
}
use bls.Protocol.Receive.Delivery.Basic.{Stands}
use bls.Protocol.Receive.Delivery.Full.{message_of}

-- What a connection holds when a message is handed to its decoder: the channel with the message's
-- header, with the bucket at the end of its chain, and the payload in the bucket.
pub record Holds (cid ts len ty sid : ℕ) (chain payload : List ℕ) (c : Conn) (w : World)
    : Type 0 where
  pub is_current : c.current_channel ≡ some cid
  pub has_message :
      find_channel cid c.channels
      ≡ some (record { header = message_of ts len ty sid 0; chain = chain ++ c.current_chunk ∷ [] })
  pub has_payload : peek (the_bucket c w).payload 0 len ≡ payload
  pub has_length : (the_bucket c w).payload_length ≡ len

-- A bucket with these bytes for its payload.
pub record Filled (payload : List ℕ) (b : Bucket) : Type 0 where
  pub content : peek b.payload 0 (length payload) ≡ payload
  pub size : b.payload_length ≡ length payload

pub named-Filled :
    (o : Option ℕ) (id : ℕ) (b : Bucket) (w : World) (payload : List ℕ)
    → w.pool.bucket id ≡ b
    → Filled payload b
    → Filled payload ((named o id w).pool.bucket id)
named-Filled none id b w payload e f = subst (Filled payload) (sym e) f
named-Filled (some s) id b w payload e f =
    let g = subst (Filled payload) (sym e) f in
    let d = bucket-put_bucket w.pool id _ in
    record {
      content = ap (λ d. peek d.payload 0 (length payload)) d ∙ g.content;
      size = ap (λ d. d.payload_length) d ∙ g.size;
    }

pub named-Rewrites : (o : Option ℕ) (id : ℕ) (w : World) → Rewrites id w (named o id w)
named-Rewrites none id w = Rewrites-refl id w
named-Rewrites (some s) id w = put_bucket-Rewrites id _ w refl

-- A bucket whose payload is read, behind these bytes.
pub record Open (old : List ℕ) (b : Bucket) : Type 0 where
  pub content : peek b.payload 0 (length old) ≡ old
  pub size : b.payload_length ≡ length old
  pub received : b.payload_recv_len ≡ length old
  pub in_state : b.state ≡ read_payload
  pub is_unnamed : b.source_stream_name ≡ none

pub Stands-Open : (fmt cid : ℕ) (b : Bucket) → Stands fmt cid read_payload b → Open [] b
Stands-Open fmt cid b st = record {
  content = refl;
  size = st.is_empty;
  received = st.is_fresh;
  in_state = st.in_state;
  is_unnamed = st.is_unnamed;
}

-- The bytes of a read, stored behind the others.
pub stored-behind :
    (old bytes : List ℕ) (id : ℕ) (w : World)
    → (stored (started id in_payload (length old) (length bytes)) bytes w).pool.bucket id
      ≡ record (w.pool.bucket id) { payload = poke (w.pool.bucket id).payload (length old) bytes }
stored-behind old bytes id w =
    let b = w.pool.bucket id in
    let behind : length old + 0 ≡ length old = omega arith in
    let at : ℕ → Bucket = λ p. record b { payload = poke b.payload p bytes } in
    bucket-put_bucket w.pool id (at (length old + 0)) ∙ ap at behind

-- What the read of a payload that completes a message leaves: the message's channel, with its bucket
-- at the end of the chain.
pub record Completes (cid : ℕ) (h : ChunkHeader) (chain all : List ℕ) (c c' : Conn) (w w' : World)
    : Type 0 where
  pub is_current : c'.current_channel ≡ some cid
  pub same_chunk : c'.current_chunk ≡ c.current_chunk
  pub has_message :
      find_channel cid c'.channels
      ≡ some (record { header = set_recv 0 h; chain = chain ++ c.current_chunk ∷ [] })
  pub filled : Filled all (w'.pool.bucket c.current_chunk)
  pub rewrites : Rewrites c.current_chunk w w'

module _ (host : Host) where
  pub read_last :
      (cid : ℕ) (h : ChunkHeader) (chain old payload : List ℕ) (c : Conn) (w : World)
      → c.reading ≡ some (started c.current_chunk in_payload (length old) (length payload))
      → c.current_channel ≡ some cid
      → Open old (the_bucket c w)
      → find_channel cid c.channels ≡ some (record { header = h; chain = chain })
      → h.msg_recv + length payload ≡ h.msg_len
      → h.msg_len < 2 ^ 32
      → length old + length payload ≤ w.pool.payload_size
      → Quiet c (length payload)
      → (c' : Conn) × (w' : World) × (read_cb host payload c w
          ≡ (msg_decode host >> expect_chunk) c' w')
        × Completes cid h chain (old ++ payload) c c' w w'
  read_last cid h chain old payload c w e cur st fc total lim room q =
      let n = length payload in
      let v : Channel = record { header = h; chain = chain } in
      let r = started c.current_chunk in_payload (length old) n in
      let u = stored r payload w in
      let buf = read_area (the_bucket c u) in_payload (length old) in
      let c0 : Conn = counted n (record c { reading = none }) in
      let same = stored-behind old payload c.current_chunk w in
      let got : Channel = record v { header = set_recv h.msg_len h } in
      let c1 : Conn = record c0 { channels = set_channel cid got c.channels } in
      let w1 : World = record u {
        pool = put_bucket u.pool c.current_chunk (counted_bucket (the_bucket c u) n);
      } in
      let last : the_bucket c1 w1 ≡ counted_bucket (the_bucket c u) n =
        bucket-put_bucket u.pool c.current_chunk _ in
      let all : the_bucket c1 w1
          ≡ counted_bucket
              (record (the_bucket c w) {
                payload = poke (the_bucket c w).payload (length old) payload;
              })
              n =
        last ∙ ap (λ b. counted_bucket b n) same in
      let found : find_channel cid c1.channels ≡ some got =
        find_channel-set_channel cid cid got c.channels ∙ rw (==-refl cid) refl in
      let linked : Channel = record got { chain = chain ++ c.current_chunk ∷ [] } in
      let m = set_channel cid linked c1.channels in
      let c2 : Conn = record c1 { channels = set_channel cid (completed got c.current_chunk) m } in
      let w2 = named c.publish_source c.current_chunk w1 in
      (
        c2,
        w2,
        read_whole host payload c w c.current_chunk in_payload (length old) e (ground (arith, room))
            ∙ machine_step host buf n (record c { reading = none }) u q
            ∙ ap (λ s. machine_in host s buf n c0 u) (ap (λ b. b.state) same ∙ st.in_state)
            ∙ on_payload_last host n c0 u cid v cur fc total lim
            ∙ on_new_chunk_whole host c1 w1 cid got cur found refl (ap (λ b. b.state) last)
                (ap (λ b. b.source_stream_name) all ∙ st.is_unnamed),
        record {
          is_current = cur;
          same_chunk = refl;
          has_message =
              find_channel-set_channel cid cid (completed got c.current_chunk) m
              ∙ rw (==-refl cid) refl;
          filled = named-Filled c.publish_source c.current_chunk _ w1 (old ++ payload) all (record {
            content = peek-poke_behind old payload (the_bucket c w).payload st.content;
            size = omega (arith, st.size, length-append old payload);
          });
          rewrites =
              Rewrites-trans c.current_chunk w u w2 (put_bucket-Rewrites c.current_chunk _ w refl) (
                Rewrites-trans c.current_chunk u w1 w2
                  (put_bucket-Rewrites c.current_chunk _ u refl)
                  (named-Rewrites c.publish_source c.current_chunk w1));
        },
      )
