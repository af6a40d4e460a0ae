-- ===== src/HandShake/Pieces.antt =====
-- How the bytes of a handshake are cut up by the network does not matter (src/BlsHandShake.cpp).
use mathlib.Core.List.{append-nil}
use bls.Base.{
  ℕ, ◌+◌, ◌<◌, ◌≡◌, refl, sym, ap, ap₂, ◌∙◌, ◌⊎◌, inl, inr, Option, none, some, List, [], ◌∷◌, ◌++◌,
  map, Mem, arith, length, length-append, poke-append, true, false, leb, ◌==◌, if◌then◌else◌,
  le→leb,
}
use bls.HandShake.{
  HandShake, Event, Phase, call, reads_client, expects_response, received, stored_sig, buf_len,
  step, step_all, finish, client_came, hs_read_buffer, hs_expect_client_response,
}

-- The handshake waits for bytes, and some are missing.
abbrev pub Reads : HandShake → Type 0
Reads hs = ((hs.phase ≡ reads_client) ⊎ (hs.phase ≡ expects_response)) × (hs.recved_len < 1537)

-- No piece is empty.
abbrev pub AllSome : List (List ℕ) → Type 0
AllSome [] = Unit {0}
AllSome (xs ∷ ps) = (0 < length xs) × AllSome ps

abbrev pub join : List (List ℕ) → List ℕ
join [] = []
join (xs ∷ ps) = xs ++ join ps

stored_sig-append :
    (xs ys : List ℕ) (hs : HandShake) → stored_sig (xs ++ ys) hs ≡ stored_sig ys (stored_sig xs hs)
stored_sig-append xs ys hs =
    ap₂ (λ m n. record hs { clientsig = m; recved_len = n })
      (poke-append xs ys hs.clientsig hs.recved_len) (omega (arith, length-append xs ys))

some_eta : (o : Option HandShake) → elim o [ none ↦ none | some h ↦ some h ] ≡ o
some_eta none = refl
some_eta (some h) = refl

module _ (s_hand_shake : ℕ → Mem → Option (Mem × Mem)) (beyond : List ℕ) where
  -- A piece that leaves something missing is stored.
  piece_stored :
      (xs : List ℕ) (hs : HandShake)
      → Reads hs
      → hs.recved_len + length xs < 1537
      → step s_hand_shake beyond (received xs) hs ≡ some (stored_sig xs hs)
  unfolding step hs_read_buffer hs_expect_client_response
  piece_stored xs hs (p, q) h =
      let fits : leb (length xs) (buf_len hs) ≡ true = le→leb _ _ (omega (arith, h)) in
      let less : ((hs.recved_len + length xs) == 1537) ≡ false = ground (arith, h) in
      elim p [
        | inl e ↦ ap (λ f. call s_hand_shake beyond f (received xs) hs) e ∙ rw (fits, less) refl
        | inr e ↦ ap (λ f. call s_hand_shake beyond f (received xs) hs) e ∙ rw (fits, less) refl
      ]

  step-append :
      (xs ys : List ℕ) (hs : HandShake)
      → Reads hs
      → hs.recved_len + length xs < 1537
      → step s_hand_shake beyond (received (xs ++ ys)) hs
        ≡ step s_hand_shake beyond (received ys) (stored_sig xs hs)
  unfolding step hs_read_buffer hs_expect_client_response
  step-append xs ys hs (p, q) h =
      let room : leb (length (xs ++ ys)) (buf_len hs)
          ≡ leb (length ys) (buf_len (stored_sig xs hs)) =
        ground (arith, h, length-append xs ys) in
      let on : Phase → Event → HandShake → Option HandShake = call s_hand_shake beyond in
      elim p [
        | inl e ↦
            ap (λ f. on f (received (xs ++ ys)) hs) e
            ∙ ap₂
                (λ b t.
                  if b
                  then some (if t.recved_len == 1537 then client_came s_hand_shake beyond t else t)
                  else none)
                room (stored_sig-append xs ys hs)
            ∙ sym (ap (λ f. on f (received ys) (stored_sig xs hs)) e)
        | inr e ↦
            ap (λ f. on f (received (xs ++ ys)) hs) e
            ∙ ap₂ (λ b t. if b then some (if t.recved_len == 1537 then finish t else t) else none)
                room (stored_sig-append xs ys hs)
            ∙ sym (ap (λ f. on f (received ys) (stored_sig xs hs)) e)
      ]

  join-cons-cons :
      (xs ys : List ℕ) (ps : List (List ℕ)) (hs : HandShake)
      → hs.recved_len + length (join (xs ∷ ys ∷ ps)) ≡ 1537
      → 0 < length ys
      → (hs.recved_len + length xs < 1537)
        × ((stored_sig xs hs).recved_len + length (join (ys ∷ ps)) ≡ 1537)
  join-cons-cons xs ys ps hs e n = (
    omega (arith, e, n, length-append xs (ys ++ join ps), length-append ys (join ps)),
    omega (arith, e, length-append xs (ys ++ join ps)),
  )

  -- While the handshake waits for bytes, it does the same with all that are missing, at once, and with
  -- any pieces of them, none of which is empty.
  pub step_all-join :
      (xs : List ℕ) (ps : List (List ℕ)) (hs : HandShake)
      → Reads hs
      → AllSome (xs ∷ ps)
      → hs.recved_len + length (join (xs ∷ ps)) ≡ 1537
      → step_all s_hand_shake beyond (map received (xs ∷ ps)) hs
        ≡ step s_hand_shake beyond (received (join (xs ∷ ps))) hs
  step_all-join xs [] hs r n e =
      some_eta (step s_hand_shake beyond (received xs) hs)
      ∙ ap (λ zs. step s_hand_shake beyond (received zs) hs) (sym (append-nil xs))
  step_all-join xs (ys ∷ ps) hs r (n, m) e =
      let (less, rest) = join-cons-cons xs ys ps hs e m.0 in
      let go : Option HandShake → Option HandShake = λ o. elim o [
        | none ↦ none
        | some h ↦ step_all s_hand_shake beyond (map received (ys ∷ ps)) h
      ] in
      ap go (piece_stored xs hs r less)
      ∙ step_all-join ys ps (stored_sig xs hs) (r.0, less) m rest
      ∙ sym (step-append xs (join (ys ∷ ps)) hs r less)
