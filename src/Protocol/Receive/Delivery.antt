-- ===== src/Protocol/Receive/Delivery.antt =====
-- A message of one chunk, from its first byte to its decoder (src/RtmpProtocol.cpp): the steps.
pub mod Header
pub mod Payload
pub mod Basic
pub mod Full
pub mod Last
pub mod Whole
pub mod SetSize
use bls.Base.{
  ℕ, ◌+◌, ◌*◌, ◌%◌, ◌/◌, ◌^◌, ◌<◌, ◌≤◌, ◌≡◌, ◌≢◌, ◌⊎◌, refl, ap, ap₂, ◌∙◌, Bool, true, false,
  Option, none, some, List, [], ◌∷◌, ◌++◌, arith, Mem, Returns, Returns-elim, length, peek, poke,
  peek-poke, ◌==◌, ==-refl, ltb, leb, if◌then◌else◌,
}
use bls.Bytes.{byte, bytes_3, host_4, read_3bytes}
use bls.Chunk.{
  end, new_chunk_header, Bucket, ChunkHeader, size_basic_header, read_message_header, read_payload,
}
use bls.Pool.{put_bucket}
use bls.World.{World, Channel}
use bls.Protocol.{
  Conn, Reading, Area, in_header, in_payload, find_channel, and_then, set_channel, the_channel,
  bind, ◌>>◌, ◌>>=◌,
}
use bls.Protocol.Client.{read_n, close, area_size}
use bls.Protocol.Control.{process_window_ack, counted, is_ack_due}
use bls.Protocol.Header.{read_fields, add_delta, expect_payload_len}
use bls.Protocol.Message.{Host, msg_decode}
use bls.Protocol.Machine.{
  chunk, on_payload, take_payload, payload_state, link_chunk, finish_channel, finish_message,
  name_chunk, is_end, whole_chunk, on_new_chunk, expect_chunk,
}
use bls.Protocol.Receive.{
  read_cb, chunk_state_machine, machine_in, read_area, stored, on_basic_header, on_message_header,
  parse_header,
}

-- No acknowledgement falls due within the next bytes.
abbrev pub Quiet : Conn → ℕ → Type 0
Quiet c n = (c.window_size ≡ 0) ⊎ ((c.acked_size + n < c.window_size) × (c.window_size < 2 ^ 64))

pub process_window_ack-Quiet :
    (c : Conn) (w : World) (n : ℕ)
    → Quiet c n
    → process_window_ack n c w ≡ some (tt, counted n c, w)
unfolding process_window_ack
process_window_ack-Quiet c w n q = let h : is_ack_due (counted n c) ≡ false = ground arith in rw h

abbrev pub started : ℕ → Area → ℕ → ℕ → Reading
started bucket area offset n = record {
  bucket = bucket;
  area = area;
  offset = offset;
  expect_len = n;
  recved_len = 0;
}

module _ (host : Host) where
  -- All that is asked for comes at once: it is stored, and the machine runs on it.
  pub read_whole :
      (bytes : List ℕ) (c : Conn) (w : World) (b : ℕ) (a : Area) (o : ℕ)
      → c.reading ≡ some (started b a o (length bytes))
      → leb (o + length bytes) (area_size w a) ≡ true
      → let r = started b a o (length bytes) in
        let u = stored r bytes w in
        read_cb host bytes c w
        ≡ chunk_state_machine host
            (read_area (u.pool.bucket b) a o)
            (length bytes)
            (record c { reading = none })
            u
  unfolding read_cb
  read_whole bytes c w b a o e fits = rw (e, fits) (ground arith)

  pub machine_step :
      (buf : Mem) (n : ℕ) (c : Conn) (w : World)
      → Quiet c n
      → chunk_state_machine host buf n c w
        ≡ machine_in host (w.pool.bucket c.current_chunk).state buf n (counted n c) w
  unfolding chunk_state_machine
  machine_step buf n c w q =
      bind (process_window_ack n) (λ _. chunk >>= λ b. machine_in host b.state buf n)
        (process_window_ack-Quiet c w n q)

-- The current bucket of a connection that is open.
abbrev pub the_bucket : Conn → World → Bucket
the_bucket c w = w.pool.bucket c.current_chunk

pub on_basic_header_full :
    (buf : Mem) (c : Conn) (w : World) (cid : ℕ)
    → c.is_closed ≡ false
    → buf 0 ≡ cid
    → 2 ≤ cid
    → cid < 64
    → on_basic_header buf 1 c w
      ≡ some (
        tt,
        record c { reading = some (started c.current_chunk in_header 1 11) },
        record w {
          pool = put_bucket w.pool c.current_chunk (record (the_bucket c w) {
            format = 0;
            chunk_id = cid;
            header_recv_len = 1;
            state = read_message_header;
          });
        },
      )
unfolding on_basic_header read_n
on_basic_header_full buf c w cid a e lo hi = ground (arith, a, e)
