-- ===== src/Protocol/Receive/Chunks/Next.antt =====
-- The one byte that begins a further chunk of a message (src/RtmpProtocol.cpp).
use bls.Base.{
  not, Bool, lt→ltb, ltb, ◌==◌, if◌then◌else◌, ap₂, ℕ, ◌+◌, ◌<◌, ◌≤◌, ◌≡◌, ◌≢◌, refl, ap, ◌∙◌,
  false, none, some, List, [], ◌∷◌, arith,
}
use bls.Chunk.{
  end, size_basic_header, read_message_header, read_ext_basic_header, read_payload, Bucket,
  ChunkHeader,
}
use bls.Pool.{put_bucket, split_last}
use bls.World.{World, Channel}
use bls.World.Rewrites.{Rewrites, Rewrites-trans, put_bucket-Rewrites}
use bls.Protocol.{Conn, in_header, in_payload, find_channel, set_channel, bind, ◌>>◌, ◌>>=◌, P}
use bls.Protocol.Client.{read_n}
use bls.Protocol.Control.{process_window_ack, counted}
use bls.Protocol.Header.{read_fields, add_delta, expect_payload_len, format_message_header_len}
use bls.Protocol.Receive.Fragments.{bucket-put_bucket}
use bls.Protocol.Message.{Host}
use bls.Protocol.Receive.{
  read_cb, machine_in, read_area, stored, on_basic_header, on_message_header, parse_header,
  to_message_header,
}
use bls.Protocol.Machine.{chunk, modify_chunk, read_header}
use bls.Protocol.Receive.Delivery.{
  Quiet, started, read_whole, machine_step, the_bucket, process_window_ack-Quiet,
}
use bls.Protocol.Receive.Delivery.Basic.{Stands}
use bls.Protocol.Receive.Delivery.Whole.{IsIdle, Quiet-counted}

-- The message header of a channel, in a further chunk.
abbrev pub without_delta : ChunkHeader → ChunkHeader
without_delta h = add_delta (record h { delta_timestamp = 0 })

abbrev pub continued : ℕ → Channel → List (ℕ × Channel) → List (ℕ × Channel)
continued cid v m =
    set_channel cid (record v { header = without_delta v.header })
      (set_channel cid (record v { header = record v.header { delta_timestamp = 0 } }) m)

on_message_header_next :
    (buf : ℕ → ℕ) (c : Conn) (w : World) (cid last n : ℕ) (before : List ℕ) (v : Channel)
    → c.is_closed ≡ false
    → (the_bucket c w).format ≡ 3
    → (the_bucket c w).chunk_id ≡ cid
    → find_channel cid c.channels ≡ some v
    → split_last v.chain ≡ some (before, last)
    → last ≢ c.current_chunk
    → (w.pool.bucket last).state ≡ end
    → v.header.msg_len ≢ 0
    → expect_payload_len (without_delta v.header) c.chunk_size ≡ n
    → n ≢ 0
    → on_message_header buf 0 c w
      ≡ some (
        tt,
        record c {
          channels = continued cid v c.channels;
          current_channel = some cid;
          reading = some (started c.current_chunk in_payload 0 n);
        },
        record w {
          pool =
              put_bucket w.pool c.current_chunk (record (the_bucket c w) { state = read_payload });
        },
      )
unfolding on_message_header parse_header read_n read_fields
on_message_header_next buf c w cid last n before v up f i e s ne st l en pn =
    ground (arith, up, f, i, e, s, ne, st, l, en, pn)

-- The bucket with the fields of the byte.
abbrev with_format : ℕ → ℕ → Bucket → Bucket
with_format fmt cid b = record b { format = fmt; chunk_id = cid; header_recv_len = 1 }

abbrev formatted : ℕ → ℕ → Conn → World → World
formatted fmt cid c w = record w {
  pool = put_bucket w.pool c.current_chunk (with_format fmt cid (the_bucket c w));
}

abbrev with_state : Bucket → Bucket
with_state b = record b { state = read_message_header }

abbrev ready : Conn → World → World
ready c w = record w { pool = put_bucket w.pool c.current_chunk (with_state (the_bucket c w)) }

-- What follows the byte, and what follows it once the state is set.
abbrev after_id : Bool → ℕ → P (Unit {0})
after_id is_short cid =
    if is_short
    then to_message_header 1
    else (modify_chunk (λ b. record b { state = read_ext_basic_header })
        >> read_header 1 (if cid == 0 then 1 else 2))

abbrev after_byte : Bucket → P (Unit {0})
after_byte b = after_id (ltb 1 b.chunk_id) b.chunk_id

abbrev after_ready : Bucket → P (Unit {0})
after_ready b =
    if not (b.format == 3)
    then read_header 1 (format_message_header_len b.format)
    else (process_window_ack 0 >> on_message_header (λ _. 0) 0)

after_byte_eq :
    (c : Conn) (w : World) (cid : ℕ)
    → 2 ≤ cid
    → (chunk >>= after_byte) c (formatted 3 cid c w)
      ≡ (process_window_ack 0 >> on_message_header (λ _. 0) 0) c (ready c (formatted 3 cid c w))
after_byte_eq c w cid lo =
    let w1 = formatted 3 cid c w in
    let same : the_bucket c w1 ≡ with_format 3 cid (the_bucket c w) =
      bucket-put_bucket w.pool c.current_chunk _ in
    ap (λ b. after_byte b c w1) same
    ∙ ap (λ t. after_id t cid c w1) (lt→ltb 1 cid lo)
    ∙ ap (λ b. after_ready b c (ready c w1))
        (bucket-put_bucket w1.pool c.current_chunk _ ∙ ap with_state same)

on_basic_header_eq :
    (buf : ℕ → ℕ) (c : Conn) (w : World) (cid : ℕ)
    → buf 0 ≡ 192 + cid
    → 2 ≤ cid
    → cid < 64
    → on_basic_header buf 1 c w
      ≡ (process_window_ack 0 >> on_message_header (λ _. 0) 0) c (ready c (formatted 3 cid c w))
unfolding on_basic_header
on_basic_header_eq buf c w cid a lo hi =
    ap₂ (λ f i. (chunk >>= after_byte) c (formatted f i c w)) (omega (arith, a, hi))
      (omega (arith, a, hi))
    ∙ after_byte_eq c w cid lo

module _ (host : Host) where
  -- The read of the byte: the channel is looked up for a chunk of format 3.
  pub read_byte :
      (cid : ℕ) (c : Conn) (w : World)
      → IsIdle c w
      → Quiet c 1
      → 2 ≤ cid
      → cid < 64
      → (w' : World) × (read_cb host ((192 + cid) ∷ []) c w
          ≡ on_message_header (λ _. 0) 0 (counted 0 (counted 1 (record c { reading = none }))) w')
        × Stands 3 cid read_message_header (the_bucket c w')
        × Rewrites c.current_chunk w w'
  read_byte cid c w idle q lo hi =
      let u = stored (started c.current_chunk in_header 0 1) ((192 + cid) ∷ []) w in
      let buf = read_area (the_bucket c u) in_header 0 in
      let c0 : Conn = record c { reading = none } in
      let in_state : (the_bucket c u).state ≡ size_basic_header = ground (arith, idle.at_begin) in
      let w0 = formatted 3 cid c u in
      let w1 = ready c w0 in
      (
        w1,
        read_whole host ((192 + cid) ∷ []) c w c.current_chunk in_header 0 idle.awaits_byte refl
            ∙ machine_step host buf 1 c0 u q
            ∙ ap (λ s. machine_in host s buf 1 (counted 1 c0) u) in_state
            ∙ on_basic_header_eq buf (counted 1 c0) u cid (ground arith) lo hi
            ∙ bind (process_window_ack 0) (λ _. on_message_header (λ _. 0) 0)
                (process_window_ack-Quiet (counted 1 c0) w1 0 (Quiet-counted 1 0 c q).1),
        record {
          has_format = ground arith;
          has_chunk_id = ground arith;
          in_state = ground arith;
          is_empty = ground (arith, idle.no_payload);
          is_unnamed = ground (arith, idle.no_name);
          is_fresh = ground (arith, idle.none_received);
        },
        Rewrites-trans c.current_chunk w u w1 (put_bucket-Rewrites c.current_chunk _ w refl) (
            Rewrites-trans c.current_chunk u w0 w1 (put_bucket-Rewrites c.current_chunk _ u refl)
              (put_bucket-Rewrites c.current_chunk _ w0 refl)),
      )

  -- The last bucket is finished: the payload is read into the new one.
  pub read_next :
      (cid last n : ℕ) (before : List ℕ) (v : Channel) (c : Conn) (w : World)
      → IsIdle c w
      → Quiet c 1
      → 2 ≤ cid
      → cid < 64
      → find_channel cid c.channels ≡ some v
      → split_last v.chain ≡ some (before, last)
      → last ≢ c.current_chunk
      → (w.pool.bucket last).state ≡ end
      → v.header.msg_len ≢ 0
      → expect_payload_len (without_delta v.header) c.chunk_size ≡ n
      → n ≢ 0
      → (w' : World) × (read_cb host ((192 + cid) ∷ []) c w
          ≡ some (
            tt,
            record (counted 0 (counted 1 c)) {
              channels = continued cid v c.channels;
              current_channel = some cid;
              reading = some (started c.current_chunk in_payload 0 n);
            },
            w',
          ))
        × Stands 3 cid read_payload (the_bucket c w')
        × Rewrites c.current_chunk w w'
  read_next cid last n before v c w idle q lo hi f s ne done l en pn =
      let (w1, e1, st, r1) = read_byte cid c w idle q lo hi in
      let c1 : Conn = counted 0 (counted 1 (record c { reading = none })) in
      (
        _,
        e1
            ∙ on_message_header_next (λ _. 0) c1 w1 cid last n before v idle.is_up st.has_format
                st.has_chunk_id f s ne (ap (λ b. b.state) (r1.others last ne) ∙ done) l en pn,
        record {
          has_format = ground (arith, st.has_format);
          has_chunk_id = ground (arith, st.has_chunk_id);
          in_state = ground arith;
          is_empty = ground (arith, st.is_empty);
          is_unnamed = ground (arith, st.is_unnamed);
          is_fresh = ground (arith, st.is_fresh);
        },
        Rewrites-trans c.current_chunk w w1 _ r1 (put_bucket-Rewrites c.current_chunk _ w1 refl),
      )
