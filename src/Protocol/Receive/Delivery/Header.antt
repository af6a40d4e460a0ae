-- ===== src/Protocol/Receive/Delivery/Header.antt =====
-- A full message header, as the machine takes it (src/RtmpProtocol.cpp).
use bls.Base.{
  ℕ, ◌+◌, ◌≡◌, ◌≢◌, refl, false, Option, none, some, List, [], ◌∷◌, arith, Mem, ◌==◌, if◌then◌else◌,
}
use bls.Chunk.{new_chunk_header, ChunkHeader, read_payload}
use bls.Pool.{put_bucket}
use bls.World.{World, Channel}
use bls.Protocol.{Conn, in_payload, find_channel, set_channel}
use bls.Protocol.Client.{read_n}
use bls.Protocol.Header.{read_fields, add_delta, expect_payload_len}
use bls.Protocol.Receive.{on_message_header, parse_header}
use bls.Protocol.Receive.Delivery.{started, the_bucket}

pub find_channel-set_channel :
    (j k : ℕ) (v : Channel) (m : List (ℕ × Channel))
    → find_channel j (set_channel k v m) ≡ (if k == j then some v else find_channel j m)
unfolding find_channel set_channel
find_channel-set_channel j k v [] = refl
find_channel-set_channel j k v ((i, u) ∷ m) = ground (arith, find_channel-set_channel j k v m)

-- The channel that a full chunk header goes to.
abbrev pub channel_for : Option Channel → Channel
channel_for none = record { header = new_chunk_header; chain = [] }
channel_for (some v) = v

-- The message header of a channel after a full chunk header.
abbrev pub full_header : Mem → Channel → ChunkHeader
full_header buf v = add_delta (read_fields 0 buf v.header)

abbrev pub with_full_header : Mem → Channel → Channel
with_full_header buf v = record v { header = full_header buf v }

-- The channels once a full chunk header has come.
abbrev pub with_header : Mem → ℕ → Option Channel → List (ℕ × Channel) → List (ℕ × Channel)
with_header buf cid none m =
    let v = channel_for none in
    set_channel cid (with_full_header buf v)
      (set_channel cid (record v { header = read_fields 0 buf v.header }) (set_channel cid v m))
with_header buf cid (some v) m =
    set_channel cid (with_full_header buf v)
      (set_channel cid (record v { header = read_fields 0 buf v.header }) m)

pub on_message_header_full :
    (buf : Mem) (c : Conn) (w : World) (cid : ℕ) (found : Option Channel)
    → c.is_closed ≡ false
    → (the_bucket c w).format ≡ 0
    → (the_bucket c w).chunk_id ≡ cid
    → find_channel cid c.channels ≡ found
    → (channel_for found).header.msg_recv ≡ 0
    → (full_header buf (channel_for found)).msg_len ≢ 0
    → (full_header buf (channel_for found)).delta_timestamp ≢ 0xFFFFFF
    → expect_payload_len (full_header buf (channel_for found)) c.chunk_size ≢ 0
    → on_message_header buf 11 c w
      ≡ some (
        tt,
        record c {
          channels = with_header buf cid found c.channels;
          current_channel = some cid;
          reading = some (
              started c.current_chunk in_payload 0
                (expect_payload_len (full_header buf (channel_for found)) c.chunk_size));
        },
        record w {
          pool = put_bucket w.pool c.current_chunk (record (the_bucket c w) {
            header_recv_len = (the_bucket c w).header_recv_len + 11;
            state = read_payload;
          });
        },
      )
unfolding on_message_header parse_header read_n read_fields
on_message_header_full buf c w cid none a f i e z l d n = ground (arith, a, f, i, e, z, l, d, n)
on_message_header_full buf c w cid (some v) a f i e z l d n = ground (arith, a, f, i, e, z, l, d, n)
