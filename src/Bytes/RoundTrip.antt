-- ===== src/Bytes/RoundTrip.antt =====
-- Reading after writing, for each width of src/utilities.cpp.
use bls.Base.{ℕ, ◌+◌, ◌*◌, ◌^◌, ◌<◌, ◌≡◌, ◌∙◌, arith, [], ◌∷◌, Mem, peek, peek-poke}
use bls.Bytes.{
  byte, read_2bytes, read_3bytes, read_4bytes, read_8bytes, write_2bytes, write_3bytes,
  write_4bytes, write_8bytes,
}

halves :
    (v : ℕ)
    → v < 2 ^ 64
    → (byte v 7 * 2 ^ 24 + byte v 6 * 2 ^ 16 + byte v 5 * 256 + byte v 4) * 2 ^ 32
        + (byte v 3 * 2 ^ 24 + byte v 2 * 2 ^ 16 + byte v 1 * 256 + byte v 0)
      ≡ v
halves v h = omega arith

read_8bytes-at :
    (m : Mem) (p a b c d e f g h : ℕ)
    → peek m p 8 ≡ a ∷ b ∷ c ∷ d ∷ e ∷ f ∷ g ∷ h ∷ []
    → read_8bytes m p
      ≡ (a * 2 ^ 24 + b * 2 ^ 16 + c * 256 + d) * 2 ^ 32 + (e * 2 ^ 24 + f * 2 ^ 16 + g * 256 + h)
unfolding read_8bytes
read_8bytes-at m p a b c d e f g h q = ground arith

eight : (m : Mem) (p v : ℕ) → v < 2 ^ 64 → read_8bytes (write_8bytes m p v) p ≡ v
unfolding read_8bytes write_8bytes
eight m p v h =
    read_8bytes-at (write_8bytes m p v) p (byte v 7) (byte v 6) (byte v 5) (byte v 4) (byte v 3)
      (byte v 2) (byte v 1) (byte v 0) (peek-poke _ m p)
    ∙ halves v h

-- Each reader gives back what the writer of its width stored, for every value of that width,
-- wherever in memory it was stored.
pub read-write :
    (m : Mem) (p v : ℕ)
    → (v < 2 ^ 16 → read_2bytes (write_2bytes m p v) p ≡ v)
      × (v < 2 ^ 24 → read_3bytes (write_3bytes m p v) p ≡ v)
      × (v < 2 ^ 32 → read_4bytes (write_4bytes m p v) p ≡ v)
      × (v < 2 ^ 64 → read_8bytes (write_8bytes m p v) p ≡ v)
unfolding read_2bytes read_3bytes read_4bytes read_8bytes write_2bytes write_3bytes write_4bytes
    write_8bytes
read-write m p v = (λ h. ground arith, λ h. ground arith, λ h. ground arith, λ h. eight m p v h)
