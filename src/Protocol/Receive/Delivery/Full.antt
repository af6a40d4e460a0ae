-- ===== src/Protocol/Receive/Delivery/Full.antt =====
-- The read of a full message header (src/RtmpProtocol.cpp).
use bls.Base.{
  ℕ, ◌+◌, ◌%◌, ◌^◌, ◌<◌, ◌≤◌, ◌≡◌, refl, sym, ap, ap₂, ◌∙◌, false, Option, none, some, List, ◌∷◌,
  ◌++◌, arith, Mem, peek, poke, peek-poke, ==-refl,
}
use bls.Bytes.{byte, bytes_3, host_4}
use bls.Chunk.{ChunkHeader, read_message_header, read_payload}
use bls.Pool.{put_bucket}
use bls.World.{World, Channel}
use bls.World.Rewrites.{Rewrites, Rewrites-trans, put_bucket-Rewrites}
use bls.Protocol.{Conn, in_header, in_payload, find_channel}
use bls.Protocol.Control.{counted}
use bls.Protocol.Header.{read_fields, expect_payload_len}
use bls.Protocol.Message.{Host}
use bls.Protocol.Receive.{read_cb, machine_in, read_area, stored}
use bls.Protocol.Header.RoundTrip.{from, join_3, join_4, fields_at}
use bls.Protocol.Receive.Fragments.{bucket-put_bucket}
use bls.Protocol.Receive.Delivery.{Quiet, started, read_whole, machine_step, the_bucket}
use bls.Protocol.Receive.Delivery.Header.{
  find_channel-set_channel, channel_for, full_header, with_full_header, with_header,
  on_message_header_full,
}
use bls.Protocol.Receive.Delivery.Basic.{Stands}

-- The bytes of a full message header.
abbrev pub full_bytes : ℕ → ℕ → ℕ → ℕ → List ℕ
full_bytes ts len ty sid = bytes_3 ts ++ bytes_3 len ++ byte ty 0 ∷ host_4 sid

-- The message header that a channel gets from them.
abbrev pub message_of : ℕ → ℕ → ℕ → ℕ → ℕ → ChunkHeader
message_of ts len ty sid recv = record {
  stream_id = sid;
  timestamp = ts;
  delta_timestamp = ts;
  type = ty;
  msg_len = len;
  msg_recv = recv;
}

-- Fields that fit their places on the wire.
pub record Fits (ts len ty sid : ℕ) : Type 0 where
  pub time_fits : ts < 0xFFFFFF
  pub len_fits : len < 2 ^ 24
  pub type_fits : ty < 256
  pub stream_fits : sid < 2 ^ 32

header_at :
    (m : Mem) (ts len ty sid : ℕ) (v : Channel)
    → Fits ts len ty sid
    → peek m 1 11 ≡ full_bytes ts len ty sid
    → full_header (from m 1) v ≡ message_of ts len ty sid v.header.msg_recv
unfolding read_fields
header_at m ts len ty sid v k e =
    let f = fields_at m 1 _ _ _ _ _ _ _ _ _ _ _ v.header e in
    let t = f.3 ∙ join_3 ts (omega (arith, k.time_fits)) in
    ap₂ (λ l y. record (full_header (from m 1) v) { msg_len = l; type = y })
      (f.0 ∙ join_3 len k.len_fits) (f.1 ∙ omega (arith, k.type_fits))
    ∙ ap₂
        (λ s d. record (message_of ts len ty sid v.header.msg_recv) {
          stream_id = s;
          delta_timestamp = d;
          timestamp = (0 + d) % 2 ^ 32;
        })
        (f.2 ∙ join_4 sid k.stream_fits) t
    ∙ ap (λ d. record (message_of ts len ty sid v.header.msg_recv) { timestamp = d })
        (omega (arith, k.time_fits))

find-with_header :
    (buf : Mem) (cid : ℕ) (found : Option Channel) (m : List (ℕ × Channel))
    → find_channel cid (with_header buf cid found m)
      ≡ some (with_full_header buf (channel_for found))
find-with_header buf cid none m = find_channel-set_channel cid cid _ _ ∙ rw (==-refl cid) refl
find-with_header buf cid (some v) m = find_channel-set_channel cid cid _ _ ∙ rw (==-refl cid) refl

pub expects :
    (h : ChunkHeader) (n : ℕ)
    → h.msg_recv ≡ 0
    → h.msg_len ≤ n
    → h.msg_len ≤ 8192
    → expect_payload_len h n ≡ h.msg_len
unfolding expect_payload_len
expects h n a b d = ground (arith, a, b, d)

module _ (host : Host) where
  pub read_full :
      (cid ts len ty sid n : ℕ) (found : Option Channel) (c : Conn) (w : World)
      → c.reading ≡ some (started c.current_chunk in_header 1 11)
      → c.is_closed ≡ false
      → Stands 0 cid read_message_header (the_bucket c w)
      → find_channel cid c.channels ≡ found
      → (channel_for found).header.msg_recv ≡ 0
      → Fits ts len ty sid
      → 0 < len
      → expect_payload_len (message_of ts len ty sid 0) c.chunk_size ≡ n
      → 0 < n
      → Quiet c 11
      → (w' : World) × (m : List (ℕ × Channel)) × (read_cb host (full_bytes ts len ty sid) c w
          ≡ some (
            tt,
            record (counted 11 c) {
              channels = m;
              current_channel = some cid;
              reading = some (started c.current_chunk in_payload 0 n);
            },
            w',
          ))
        × Stands 0 cid read_payload (the_bucket c w')
        × Rewrites c.current_chunk w w'
        × (find_channel cid m
            ≡ some
                (record { header = message_of ts len ty sid 0; chain = (channel_for found).chain }))
  read_full cid ts len ty sid n found c w e is_up st fc rc k p en pn q =
      let hdr = full_bytes ts len ty sid in
      let u = stored (started c.current_chunk in_header 1 11) hdr w in
      let buf = read_area (the_bucket c u) in_header 1 in
      let v = channel_for found in
      let c0 : Conn = record c { reading = none } in
      let same : the_bucket c u
          ≡ record (the_bucket c w) { header = poke (the_bucket c w).header 1 hdr } =
        bucket-put_bucket w.pool c.current_chunk _ in
      let h : full_header buf v ≡ message_of ts len ty sid 0 =
        ap (λ b. full_header (from b.header 1) v) same
        ∙ header_at (poke (the_bucket c w).header 1 hdr) ts len ty sid v k
            (peek-poke hdr (the_bucket c w).header 1)
        ∙ ap (message_of ts len ty sid) rc in
      let all : expect_payload_len (full_header buf v) c.chunk_size ≡ n =
        ap (λ g. expect_payload_len g c.chunk_size) h ∙ en in
      let w1 : World = record u {
        pool = put_bucket u.pool c.current_chunk (record (the_bucket c u) {
          header_recv_len = (the_bucket c u).header_recv_len + 11;
          state = read_payload;
        });
      } in
      (
        w1,
        with_header buf cid found c.channels,
        read_whole host hdr c w c.current_chunk in_header 1 e refl
            ∙ machine_step host buf 11 c0 u q
            ∙ ap (λ s. machine_in host s buf 11 (counted 11 c0) u)
                (ap (λ b. b.state) same ∙ st.in_state)
            ∙ on_message_header_full buf (counted 11 c0) u cid found is_up
                (ap (λ b. b.format) same ∙ st.has_format)
                (ap (λ b. b.chunk_id) same ∙ st.has_chunk_id) fc rc
                (λ z. absurd (omega (arith, p, sym (ap (λ g. g.msg_len) h) ∙ z)))
                (λ z. absurd (omega (arith, k.time_fits, sym (ap (λ g. g.delta_timestamp) h) ∙ z)))
                (λ z. absurd (omega (arith, pn, sym all ∙ z)))
            ∙ ap
                (λ l. some (
                  tt,
                  record (counted 11 c) {
                    channels = with_header buf cid found c.channels;
                    current_channel = some cid;
                    reading = some (started c.current_chunk in_payload 0 l);
                  },
                  w1,
                ))
                all,
        record {
          has_format = ground (arith, st.has_format);
          has_chunk_id = ground (arith, st.has_chunk_id);
          in_state = ground arith;
          is_empty = ground (arith, st.is_empty);
          is_unnamed = ground (arith, st.is_unnamed);
          is_fresh = ground (arith, st.is_fresh);
        },
        Rewrites-trans c.current_chunk w u w1 (put_bucket-Rewrites c.current_chunk _ w refl)
            (put_bucket-Rewrites c.current_chunk _ u refl),
        find-with_header buf cid found c.channels
            ∙ ap (λ g. some (record { header = g; chain = v.chain })) h,
      )
