-- ===== src/Protocol/Receive/Delivery/SetSize.antt =====
-- A Set Chunk Size message, from its first byte to its effect (src/RtmpProtocol.cpp,
-- src/BlsMessage.cpp).
use bls.Base.{
  ℕ, ◌+◌, ◌*◌, ◌^◌, ◌<◌, ◌≤◌, ◌≡◌, refl, subst, ap, ◌∙◌, true, Option, some, List, [], ◌∷◌, Mem,
  peek, leb, arith, ==-refl, if◌then◌else◌,
}
use bls.Bytes.{bytes_4, read_4bytes}
use bls.Pool.{free_chain}
use bls.World.{World, Channel}
use bls.World.Buckets.{free_buckets}
use bls.Protocol.{
  Conn, P, find_channel, set_channel, the_channel, put_channel, modify, pure, bind, lift, ◌>>◌,
  ◌>>=◌,
}
use bls.Protocol.Client.{close}
use bls.Protocol.Header.RoundTrip.{join_4}
use bls.Protocol.Message.{
  Host, max_chunk_type, msg_decode, worker, is_chunk_size_ok, msg_set_chunk_size_decode,
}
use bls.Protocol.Machine.{expect_chunk}
use bls.Protocol.Receive.{read_cb}
use bls.Protocol.Receive.Delivery.{Quiet}
use bls.Protocol.Receive.Delivery.Header.{channel_for, find_channel-set_channel}
use bls.Protocol.Receive.Delivery.Payload.{the_channel_eq}
use bls.Protocol.Receive.Delivery.Full.{full_bytes, message_of, Fits}
use bls.Protocol.Receive.Delivery.Last.{Holds}
use bls.Protocol.Receive.Delivery.Whole.{IsIdle, read_cb-msg_decode}

read_at :
    (m : Mem) (a b c d : ℕ)
    → peek m 0 4 ≡ a ∷ b ∷ c ∷ d ∷ []
    → read_4bytes m 0 ≡ a * 2 ^ 24 + b * 2 ^ 16 + c * 256 + d
unfolding read_4bytes
read_at m a b c d e = ground arith

-- The decoder on a message of one bucket.
set_size_eq :
    (id n : ℕ) (c : Conn) (w : World)
    → peek (w.pool.bucket id).payload 0 4 ≡ bytes_4 n
    → n < 2 ^ 32
    → is_chunk_size_ok n ≡ true
    → msg_set_chunk_size_decode (id ∷ []) c w ≡ some (tt, record c { chunk_size = n }, w)
unfolding msg_set_chunk_size_decode
set_size_eq id n c w e k ok =
    ap (λ m. (if is_chunk_size_ok m then modify (λ c. record c { chunk_size = m }) else close) c w)
      (read_at (w.pool.bucket id).payload _ _ _ _ e ∙ join_4 n k)
    ∙ ap (λ b. (if b then modify (λ c. record c { chunk_size = n }) else close) c w) ok

abbrev decode_channel : Host → ℕ × Channel → P (Unit {0})
decode_channel host (k, channel) = do
  put_channel k (record channel { chain = [] })
  left ←
      (if leb max_chunk_type channel.header.type
        then pure channel.chain
        else worker host channel.header channel.chain)
  lift (free_buckets left)

decode_eq :
    (host : Host) (cid ts sid n : ℕ) (c : Conn) (w : World)
    → Holds cid ts 4 1 sid [] (bytes_4 n) c w
    → n < 2 ^ 32
    → is_chunk_size_ok n ≡ true
    → let gone : Channel = record { header = message_of ts 4 1 sid 0; chain = [] } in
      (w' : World) × (msg_decode host c w
        ≡ some (tt, record c { channels = set_channel cid gone c.channels; chunk_size = n }, w'))
unfolding msg_decode worker
decode_eq host cid ts sid n c w h k ok =
    let chain = c.current_chunk ∷ [] in
    let gone : Channel = record { header = message_of ts 4 1 sid 0; chain = [] } in
    let c1 : Conn = record c { channels = set_channel cid gone c.channels } in
    let release : List ℕ → P (Unit {0}) = λ left. lift (free_buckets left) in
    let decoder : P (List ℕ) = msg_set_chunk_size_decode chain >>= λ _. pure chain in
    (
      record w { pool = free_chain w.pool chain },
      bind the_channel (decode_channel host) (the_channel_eq c w cid _ h.is_current h.has_message)
          ∙ bind decoder release {c = c1} {w = w} (
              bind (msg_set_chunk_size_decode chain) (λ _. pure chain) {c = c1} {w = w}
                (set_size_eq c.current_chunk n c1 w h.has_payload k ok)),
    )

-- A connection as in `read_cb-msg_decode`, whose channel has no earlier chunk, is sent a Set Chunk Size
-- message in one chunk, with a size that the server accepts. After the three reads the connection has
-- that chunk size, the channel has nothing of the message any more, and `expect_chunk` runs.
pub read_cb-msg_set_chunk_size_decode :
    (host : Host) (cid ts sid n : ℕ) (found : Option Channel) (c : Conn) (w : World)
    → IsIdle c w
    → Quiet c 16
    → find_channel cid c.channels ≡ found
    → (channel_for found).header.msg_recv ≡ 0
    → (channel_for found).chain ≡ []
    → 2 ≤ cid
    → cid < 64
    → Fits ts 4 1 sid
    → 4 ≤ c.chunk_size
    → 4 ≤ w.pool.payload_size
    → n < 2 ^ 32
    → is_chunk_size_ok n ≡ true
    → (c' : Conn) × (w' : World) × ((read_cb host (cid ∷ [])
            >> read_cb host (full_bytes ts 4 1 sid)
            >> read_cb host (bytes_4 n))
          c w
        ≡ expect_chunk c' w')
      × (c'.chunk_size ≡ n)
      × (find_channel cid c'.channels
          ≡ some (record { header = message_of ts 4 1 sid 0; chain = [] }))
read_cb-msg_set_chunk_size_decode host cid ts sid n found c w idle q fc rc empty lo hi fits ck room
      k ok =
    let (c1, w1, e, holds) =
      read_cb-msg_decode host cid ts 1 sid (bytes_4 n) found c w idle q fc rc lo hi fits
        (omega arith) ck (omega arith) room in
    let held : Holds cid ts 4 1 sid [] (bytes_4 n) c1 w1 =
      subst (λ chain. Holds cid ts 4 1 sid chain (bytes_4 n) c1 w1) empty holds in
    let (w2, f) = decode_eq host cid ts sid n c1 w1 held k ok in
    let gone : Channel = record { header = message_of ts 4 1 sid 0; chain = [] } in
    let c2 : Conn = record c1 { channels = set_channel cid gone c1.channels; chunk_size = n } in
    (
      c2,
      w2,
      e ∙ bind (msg_decode host) (λ _. expect_chunk) f,
      refl,
      find_channel-set_channel cid cid gone c1.channels ∙ rw (==-refl cid) refl,
    )
