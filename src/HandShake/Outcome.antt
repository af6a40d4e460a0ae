-- ===== src/HandShake/Outcome.antt =====
-- How a handshake ends (src/BlsHandShake.cpp).
use bls.Base.{
  ℕ, ◌+◌, ◌≡◌, refl, ap, ◌∙◌, inl, inr, Option, none, some, List, [], ◌∷◌, ◌++◌, map, Mem, arith,
  length, true, false, leb, ◌==◌, if◌then◌else◌, le→leb, Returns,
}
use bls.HandShake.{
  HandShake, Event, reads_client, expects_response, finished, received, written, stored_sig,
  buf_len, step, step_all, call, finish, respond, client_came, is_private, new_handshake,
  hs_read_buffer, hs_expect_client_response, send_hs_server_response_cb,
}
use bls.HandShake.Pieces.{AllSome, join, step_all-join}

module _ (s_hand_shake : ℕ → Mem → Option (Mem × Mem)) (beyond : List ℕ) where
  -- All that the client sends at first, at once.
  pub all_read :
      (bytes : List ℕ) (hs : HandShake)
      → hs.phase ≡ reads_client
      → hs.recved_len + length bytes ≡ 1537
      → step s_hand_shake beyond (received bytes) hs
        ≡ some (client_came s_hand_shake beyond (stored_sig bytes hs))
  unfolding step hs_read_buffer
  all_read bytes hs p h =
      let fits : leb (length bytes) (buf_len hs) ≡ true = le→leb _ _ (omega (arith, h)) in
      let whole : ((hs.recved_len + length bytes) == 1537) ≡ true = ground (arith, h) in
      ap (λ f. call s_hand_shake beyond f (received bytes) hs) p ∙ rw (fits, whole) refl

  -- All of the answer.
  all_expected :
      (bytes : List ℕ) (hs : HandShake)
      → hs.phase ≡ expects_response
      → hs.recved_len + length bytes ≡ 1537
      → step s_hand_shake beyond (received bytes) hs ≡ some (finish (stored_sig bytes hs))
  unfolding step hs_expect_client_response
  all_expected bytes hs p h =
      let fits : leb (length bytes) (buf_len hs) ≡ true = le→leb _ _ (omega (arith, h)) in
      let whole : ((hs.recved_len + length bytes) == 1537) ≡ true = ground (arith, h) in
      ap (λ f. call s_hand_shake beyond f (received bytes) hs) p ∙ rw (fits, whole) refl

  abbrev step_from : List Event → Option HandShake → Option HandShake
  step_from es none = none
  step_from es (some h) = step_all s_hand_shake beyond es h

  from_both :
      (es fs : List Event) (o : Option HandShake)
      → ((h : HandShake)
          → step_all s_hand_shake beyond (es ++ fs) h
            ≡ step_from fs (step_all s_hand_shake beyond es h))
      → elim o [ none ↦ none | some h ↦ step_all s_hand_shake beyond (es ++ fs) h ]
        ≡ step_from fs (elim o [ none ↦ none | some h ↦ step_all s_hand_shake beyond es h ])
  from_both es fs none ih = refl
  from_both es fs (some h) ih = ih h

  step_all-append :
      (es fs : List Event) (hs : HandShake)
      → step_all s_hand_shake beyond (es ++ fs) hs
        ≡ step_from fs (step_all s_hand_shake beyond es hs)
  step_all-append [] fs hs = refl
  step_all-append (x ∷ es) fs hs =
      from_both es fs (step s_hand_shake beyond x hs) (step_all-append es fs)

  -- A client that sends 1537 bytes in any pieces, whose bytes are not the private signature and for
  -- which a response is found, gets it; when it has been written, any further 1536 bytes, in any
  -- pieces, finish the handshake.
  pub step_all-finished :
      (xs ys : List ℕ) (ps qs : List (List ℕ)) (m n sig out : Mem)
      → AllSome (xs ∷ ps)
      → AllSome (ys ∷ qs)
      → length (join (xs ∷ ps)) ≡ 1537
      → length (join (ys ∷ qs)) ≡ 1536
      → let hs = stored_sig (join (xs ∷ ps)) (new_handshake m n) in
        is_private s_hand_shake beyond hs ≡ false
        → s_hand_shake (hs.clientsig 0) (λ i. hs.clientsig (i + 1)) ≡ some (sig, out)
        → Returns
            (step_all s_hand_shake beyond
              (map received (xs ∷ ps) ++ written false ∷ map received (ys ∷ qs))
              (new_handshake m n))
            λ (r : HandShake). (r.phase ≡ finished) × (r.serverbuf ≡ out)
  unfolding new_handshake step send_hs_server_response_cb
  step_all-finished xs ys ps qs m n sig out a b k l p s =
      let h0 = new_handshake m n in
      let hs = stored_sig (join (xs ∷ ps)) h0 in
      let h2 = respond s_hand_shake beyond (some (sig, out)) hs in
      let h3 : HandShake = record h2 { recved_len = 1; phase = expects_response } in
      let sent : client_came s_hand_shake beyond hs ≡ h2 =
        ap
          (λ t.
            if t
            then finish hs
            else respond s_hand_shake beyond
                (s_hand_shake (hs.clientsig 0) (λ i. hs.clientsig (i + 1))) hs)
          p
        ∙ ap (λ o. respond s_hand_shake beyond o hs) s in
      let later = written false ∷ map received (ys ∷ qs) in
      rw
        (step_all-append (map received (xs ∷ ps)) later h0
          ∙ ap (step_from later) (
              step_all-join s_hand_shake beyond xs ps h0 (inl refl, omega arith) a
                (omega (arith, k))
              ∙ all_read (join (xs ∷ ps)) h0 refl (omega (arith, k))
              ∙ ap some sent)
          ∙ step_all-join s_hand_shake beyond ys qs h3 (inr refl, omega arith) b (omega (arith, l))
          ∙ all_expected (join (ys ∷ qs)) h3 refl (omega (arith, l)))
        (refl, refl)
