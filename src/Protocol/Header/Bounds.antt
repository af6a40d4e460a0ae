-- ===== src/Protocol/Header/Bounds.antt =====
-- How much payload is asked for, and which chunk sizes a peer may set.
use bls.Base.{ℕ, ◌+◌, ◌%◌, ◌^◌, ◌≤◌, ◌<◌, ◌≡◌, refl, ◌⊎◌, true, arith}
use native.Mathlib.Nat.{mod-eq_of_lt}
use bls.Chunk.{ChunkHeader}
use bls.Protocol.Header.{expect_payload_len}
use bls.Protocol.Message.{is_chunk_size_ok}

-- While a message is incomplete and the chunk size is not 0, the next read asks for at least one
-- byte, and for no more than the message lacks, a chunk may hold, or a bucket has.
pub expect_payload_len_bounds :
    (h : ChunkHeader) (chunk_size : ℕ)
    → h.msg_recv < h.msg_len
    → h.msg_len < 2 ^ 32
    → 0 < chunk_size
    → (0 < expect_payload_len h chunk_size)
      × (h.msg_recv + expect_payload_len h chunk_size ≤ h.msg_len)
      × (expect_payload_len h chunk_size ≤ chunk_size)
      × (expect_payload_len h chunk_size ≤ 8192)
unfolding expect_payload_len
expect_payload_len_bounds h chunk_size a b c = ground arith

mod_self : 8192 % 8192 ≡ 0
mod_self = refl

-- `msg_set_chunk_size_decode` accepts a size exactly if it is not 0 and divides the bucket size or is
-- a multiple of it.
pub is_chunk_size_ok_iff :
    (n : ℕ)
    → (is_chunk_size_ok n ≡ true → (0 < n) × ((8192 % n ≡ 0) ⊎ (n % 8192 ≡ 0)))
      × ((0 < n) × ((8192 % n ≡ 0) ⊎ (n % 8192 ≡ 0)) → is_chunk_size_ok n ≡ true)
unfolding is_chunk_size_ok
is_chunk_size_ok_iff n =
    (λ h. ground arith, λ h. ground (arith, mod_self, mod-eq_of_lt {n = 8192} {m = n}))
