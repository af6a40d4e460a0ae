-- ===== src/HandShake/Private.antt =====
-- The private handshake between two servers (src/BlsHandShake.cpp): what `hs_write_private_sig` sends
-- is accepted.
use bls.Base.{
  ℕ, ◌+◌, ◌-◌, ◌≤◌, ◌≡◌, refl, sym, ap, ◌∙◌, inl, true, Option, some, List, [], ◌∷◌, ◌++◌, map, Mem,
  arith, length, length-append, peek, poke, peek-poke, peek-append, peek-below, poke-append,
  length-peek, ==-refl, if◌then◌else◌,
}
use bls.HandShake.{
  HandShake, received, stored_sig, step_all, finish, finished, new_handshake, is_private,
  same_bytes, handshake_private_sig, hs_write_private_sig, respond,
}
use bls.HandShake.Pieces.{AllSome, join, step_all-join}
use bls.HandShake.Outcome.{all_read}

same_bytes_refl : (xs : List ℕ) → same_bytes xs xs ≡ true
unfolding same_bytes
same_bytes_refl [] = refl
same_bytes_refl (x ∷ xs) = rw (==-refl x) (same_bytes_refl xs)

-- Bytes that start with some others, written to memory and read back.
starts_with :
    (xs : List ℕ) (buf m : Mem) (n : ℕ)
    → length xs ≤ n
    → peek (poke m 0 (peek (poke buf 0 xs) 0 n)) 0 (length xs) ≡ xs
starts_with xs buf m n h =
    let k = length xs in
    let rest = peek (poke buf 0 xs) (0 + k) (n - k) in
    let cut : n ≡ k + (n - k) = omega (arith, h) in
    let bytes : peek (poke buf 0 xs) 0 n ≡ xs ++ rest =
      ap (peek (poke buf 0 xs) 0) cut
      ∙ peek-append (poke buf 0 xs) 0 k (n - k)
      ∙ ap (λ ys. ys ++ rest) (peek-poke xs buf 0) in
    ap (λ ys. peek (poke m 0 ys) 0 k) (bytes)
    ∙ ap (λ f. peek f 0 k) (poke-append xs rest m 0)
    ∙ peek-below rest (poke m 0 xs) 0 (0 + k) k (omega arith)
    ∙ peek-poke xs m 0

module _ (s_hand_shake : ℕ → Mem → Option (Mem × Mem)) (beyond : List ℕ) where
  signed :
      (bytes : List ℕ) (m n buf : Mem)
      → length beyond ≡ 5
      → bytes ≡ hs_write_private_sig beyond buf
      → is_private s_hand_shake beyond (stored_sig bytes (new_handshake m n)) ≡ true
  unfolding new_handshake hs_write_private_sig
  signed bytes m n buf five e =
      let sig = handshake_private_sig ++ beyond in
      let sixteen : length sig ≡ 16 =
        omega (arith, five, length-append handshake_private_sig beyond) in
      ap (λ xs. same_bytes xs sig)
        (ap (λ ys. peek (poke m 0 ys) 0 16) e
          ∙ ap (peek (poke m 0 (peek (poke buf 0 sig) 0 1537)) 0) (sym sixteen)
          ∙ starts_with sig buf m 1537 (omega (arith, sixteen)))
      ∙ same_bytes_refl sig

  pub length-hs_write_private_sig : (buf : Mem) → length (hs_write_private_sig beyond buf) ≡ 1537
  unfolding hs_write_private_sig
  length-hs_write_private_sig buf =
      length-peek (poke buf 0 (handshake_private_sig ++ beyond)) 0 1537

  -- What `hs_write_private_sig` sends, cut into any pieces by the network, none of them empty, finishes
  -- the handshake of the server that it comes to, and nothing is written back. The compared length is
  -- that of the literal and five bytes behind it, which are the same on both sides.
  pub step_all-hs_write_private_sig :
      (xs : List ℕ) (ps : List (List ℕ)) (m n buf : Mem)
      → length beyond ≡ 5
      → AllSome (xs ∷ ps)
      → join (xs ∷ ps) ≡ hs_write_private_sig beyond buf
      → (hs : HandShake) × (step_all s_hand_shake beyond
            (map received (xs ∷ ps))
            (new_handshake m n)
          ≡ some hs)
        × (hs.phase ≡ finished)
        × (hs.serverbuf ≡ n)
  unfolding new_handshake
  step_all-hs_write_private_sig xs ps m n buf five a e =
      let bytes = join (xs ∷ ps) in
      let h0 = new_handshake m n in
      let hs = stored_sig bytes h0 in
      let len : length bytes ≡ 1537 = ap length e ∙ length-hs_write_private_sig buf in
      (
        finish hs,
        step_all-join s_hand_shake beyond xs ps h0 (inl refl, omega arith) a (omega (arith, len))
            ∙ all_read s_hand_shake beyond bytes h0 refl (omega (arith, len))
            ∙ ap
                (λ b. some (
                  if b
                  then finish hs
                  else respond s_hand_shake beyond
                      (s_hand_shake (hs.clientsig 0) (λ i. hs.clientsig (i + 1))) hs))
                (signed bytes m n buf five e),
        refl,
        refl,
      )
