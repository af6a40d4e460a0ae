-- ===== src/Bytes.antt =====
-- The big-endian numbers of src/utilities.cpp. `uint8_t *p` is a memory and a position in it.
-- The C code copies through the object representation of the value, on a little-endian host.
pub mod RoundTrip
use bls.Base.{ℕ, ◌+◌, ◌*◌, ◌/◌, ◌%◌, ◌^◌, List, [], ◌∷◌, Mem, poke}

-- Byte `k` of the object representation of an unsigned number, `pp[k]`.
abbrev pub byte : ℕ → ℕ → ℕ
byte v k = (v / 2 ^ (8 * k)) % 256

unfoldable pub read_1bytes : Mem → ℕ → ℕ
read_1bytes m p = m p

unfoldable pub read_2bytes : Mem → ℕ → ℕ
read_2bytes m p = m p * 256 + m (p + 1)

unfoldable pub read_3bytes : Mem → ℕ → ℕ
read_3bytes m p = m p * 2 ^ 16 + m (p + 1) * 256 + m (p + 2)

unfoldable pub read_4bytes : Mem → ℕ → ℕ
read_4bytes m p = m p * 2 ^ 24 + m (p + 1) * 2 ^ 16 + m (p + 2) * 256 + m (p + 3)

-- `int64_t`, as its bit pattern.
unfoldable pub read_8bytes : Mem → ℕ → ℕ
unfolding read_4bytes
read_8bytes m p = read_4bytes m p * 2 ^ 32 + read_4bytes m (p + 4)

abbrev pub bytes_1 : ℕ → List ℕ
bytes_1 v = byte v 0 ∷ []

abbrev pub bytes_2 : ℕ → List ℕ
bytes_2 v = byte v 1 ∷ byte v 0 ∷ []

abbrev pub bytes_3 : ℕ → List ℕ
bytes_3 v = byte v 2 ∷ byte v 1 ∷ byte v 0 ∷ []

abbrev pub bytes_4 : ℕ → List ℕ
bytes_4 v = byte v 3 ∷ byte v 2 ∷ byte v 1 ∷ byte v 0 ∷ []

-- `*(uint32_t *) p = v`
abbrev pub host_4 : ℕ → List ℕ
host_4 v = byte v 0 ∷ byte v 1 ∷ byte v 2 ∷ byte v 3 ∷ []

unfoldable pub write_1bytes : Mem → ℕ → ℕ → Mem
write_1bytes m p v = poke m p (bytes_1 v)

unfoldable pub write_2bytes : Mem → ℕ → ℕ → Mem
write_2bytes m p v = poke m p (bytes_2 v)

unfoldable pub write_3bytes : Mem → ℕ → ℕ → Mem
write_3bytes m p v = poke m p (bytes_3 v)

unfoldable pub write_4bytes : Mem → ℕ → ℕ → Mem
write_4bytes m p v = poke m p (bytes_4 v)

unfoldable pub write_8bytes : Mem → ℕ → ℕ → Mem
write_8bytes m p v =
    poke m p
      (byte v 7 ∷ byte v 6 ∷ byte v 5 ∷ byte v 4 ∷ byte v 3 ∷ byte v 2 ∷ byte v 1 ∷ byte v 0 ∷ [])
