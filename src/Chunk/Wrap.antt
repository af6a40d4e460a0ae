-- ===== src/Chunk/Wrap.antt =====
-- `wrap_chunk_header` of src/RtmpProtocol.cpp.
pub mod Layout
use bls.Base.{
  ℕ, ◌+◌, ◌-◌, ◌*◌, ◌%◌, ◌<◌, Bool, true, false, Option, none, some, List, [], ◌∷◌, ◌++◌, Mem, poke,
  length, ltb, leb, if◌then◌else◌, ◌>>=◌,
}
use bls.Bytes.{byte, bytes_3, bytes_4, host_4}
use bls.Chunk.{Bucket, rtmp_chunk_header_max}

-- `cur_p` and the header memory that it points into.
pub record Cursor : Type 0 where
  pub mem : Mem
  pub pos : ℕ

-- Store bytes at `cur_p`, then move it. `none` is a store outside the header's 18 bytes.
abbrev pub emit : List ℕ → ℕ → Cursor → Option Cursor
emit bs n c =
    if leb (c.pos + length bs) rtmp_chunk_header_max
    then some (record { mem = poke c.mem c.pos bs; pos = c.pos + n })
    else none

-- What the first part of the function leaves: the cursor behind the chunk id, or the memory at the
-- early return on an id that is too big.
pub data Basic : Type 0 where
  too_big : Mem → Basic
  behind_id : Cursor → Basic

-- The first byte and the chunk id. `|=` joins bits that are zero in `fmt << 6`.
unfoldable pub write_basic_header : ℕ → ℕ → Mem → Option Basic
write_basic_header fmt chunk_id m =
    let start : Cursor = record { mem = m; pos = 0 } in
    if ltb chunk_id 64
    then (emit (((fmt * 64) % 256 + chunk_id % 64) ∷ []) 1 start >>= λ c. some (behind_id c))
    else if ltb chunk_id 320
    then (emit (((fmt * 64) % 256) ∷ []) 1 start >>= emit (((chunk_id - 64) % 256) ∷ []) 1 >>= λ c.
        some (behind_id c))
    else if ltb chunk_id 65599
    then (emit (((fmt * 64) % 256 + 1) ∷ []) 1 start >>= emit (host_4 (chunk_id - 64)) 2 >>= λ c.
        some (behind_id c))
    else (emit (((fmt * 64) % 256) ∷ []) 0 start >>= λ c. some (too_big c.mem))

-- `need_ext_timestamp` and the three timestamp bytes.
abbrev pub needs_ext : ℕ → ℕ → Bool
needs_ext fmt timestamp = if ltb fmt 3 then leb 16777215 timestamp else false

abbrev pub write_timestamp : ℕ → ℕ → Cursor → Option Cursor
write_timestamp fmt timestamp c =
    if ltb fmt 3
    then (if leb 16777215 timestamp
        then emit (host_4 0xFFFFFF) 3 c
        else emit (bytes_3 timestamp) 3 c)
    else some c

abbrev pub write_length_and_type : ℕ → ℕ → ℕ → Cursor → Option Cursor
write_length_and_type fmt msg_len type_id c =
    if ltb fmt 2 then emit (bytes_3 msg_len ++ byte type_id 0 ∷ []) 4 c else some c

abbrev pub write_stream_id : ℕ → ℕ → Cursor → Option Cursor
write_stream_id fmt msg_id c = if ltb fmt 1 then emit (host_4 msg_id) 4 c else some c

abbrev pub write_ext_timestamp : Bool → ℕ → Cursor → Option Cursor
write_ext_timestamp need timestamp c = if need then emit (bytes_4 timestamp) 4 c else some c

-- The fields behind the basic header, in their order on the wire.
unfoldable pub write_message_header : ℕ → ℕ → ℕ → ℕ → ℕ → Cursor → Option Cursor
write_message_header fmt timestamp msg_len type_id msg_id c =
    write_timestamp fmt timestamp c
    >>= write_length_and_type fmt msg_len type_id
    >>= write_stream_id fmt msg_id
    >>= write_ext_timestamp (needs_ext fmt timestamp) timestamp

abbrev finish : Bucket → ℕ → ℕ → Cursor → Bucket
finish b fmt chunk_id c = record b {
  header = c.mem;
  header_length = c.pos;
  header_recv_len = c.pos;
  chunk_id = chunk_id;
  format = fmt;
}

-- `wrap_chunk_header`. An id from 65599 on is refused when the first byte is already written.
unfoldable pub wrap_chunk_header : Bucket → ℕ → ℕ → ℕ → ℕ → ℕ → ℕ → Option Bucket
unfolding write_basic_header write_message_header
wrap_chunk_header b fmt chunk_id timestamp msg_len type_id msg_id =
    write_basic_header fmt chunk_id b.header >>= λ r. elim r [
      | too_big m ↦ some (record b { header = m })
      | behind_id c ↦
          (write_message_header fmt timestamp msg_len type_id msg_id c >>= λ d.
          some (finish b fmt chunk_id d))
    ]

-- The default arguments of a continuation chunk.
abbrev pub wrap_continuation : Bucket → ℕ → Option Bucket
wrap_continuation b chunk_id = wrap_chunk_header b 3 chunk_id 0 0 0 0
