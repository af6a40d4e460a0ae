-- ===== src/World/Encode/Pieces.antt =====
-- How `encode_buf_to_chunk_chain` of src/RtmpProtocol.cpp cuts a buffer, without the pool.
use bls.Base.{
  ℕ, zero, suc, ◌<◌, ◌≤◌, ◌≡◌, refl, ap, ◌∙◌, inl, inr, List, [], ◌∷◌, ◌++◌, arith, length,
  length-append, length-take, length-drop, take, drop, take-append-drop, ltb, ltb→lt, Bool-cases,
  if◌then◌else◌,
}
use mathlib.Core.List.{append-nil}

-- All the pieces are of the chunk size but the last, which is not empty.
abbrev pub IsCut : ℕ → List (List ℕ) → Type 0
IsCut size [] = ⊥
IsCut size (p ∷ []) = (0 < length p) × (length p ≤ size)
IsCut size (p ∷ q ∷ ps) = (length p ≡ size) × IsCut size (q ∷ ps)

abbrev pub join : List (List ℕ) → List ℕ
join [] = []
join (p ∷ ps) = p ++ join ps

pub join-IsCut :
    (size : ℕ) (p : List ℕ) (ps : List (List ℕ))
    → 0 < size
    → IsCut size (p ∷ ps)
    → 0 < length (join (p ∷ ps))
join-IsCut size p [] some_size cut = omega (arith, cut.0, length-append p [])
join-IsCut size p (q ∷ ps) some_size cut =
    omega (arith, some_size, cut.0, length-append p (join (q ∷ ps)))

-- The pieces behind the first one; the fuel bounds their number.
abbrev pub pieces_after : ℕ → List ℕ → List (List ℕ)
pieces_after zero bytes = []
pieces_after (suc fuel) bytes =
    let rest = pieces_after fuel (drop 8192 bytes) in
    if ltb 8192 (length bytes) then take 8192 (drop 8192 bytes) ∷ rest else []

abbrev pub pieces : ℕ → List ℕ → List (List ℕ)
pieces fuel bytes = take 8192 bytes ∷ pieces_after fuel bytes

pub take_all : {A : Type 0} (n : ℕ) (xs : List A) → length xs ≤ n → take n xs ≡ xs
take_all zero [] h = refl
take_all zero (x ∷ xs) h = absurd (omega (arith, h))
take_all (suc n) [] h = refl
take_all (suc n) (x ∷ xs) h = ap (◌∷◌ x) (take_all n xs (omega (arith, h)))

pub pieces-IsCut :
    (fuel : ℕ) (bytes : List ℕ)
    → length bytes < fuel
    → 0 < length bytes
    → IsCut 8192 (pieces fuel bytes)
pieces-IsCut zero bytes f some_bytes = absurd (omega (arith, f))
pieces-IsCut (suc fuel) bytes f some_bytes = elim (Bool-cases (ltb 8192 (length bytes))) [
  | inl more ↦
      let n = ltb→lt 8192 (length bytes) more in
      rw more (
        omega (arith, n, length-take 8192 bytes),
        pieces-IsCut fuel (drop 8192 bytes) (omega (arith, f, n, length-drop 8192 bytes))
            (omega (arith, n, length-drop 8192 bytes)),
      )
  | inr done ↦
      rw done
        (omega (arith, some_bytes, length-take 8192 bytes), omega (arith, length-take 8192 bytes))
]

pub join-pieces :
    (fuel : ℕ) (bytes : List ℕ) → length bytes < fuel → join (pieces fuel bytes) ≡ bytes
join-pieces zero bytes f = absurd (omega (arith, f))
join-pieces (suc fuel) bytes f = elim (Bool-cases (ltb 8192 (length bytes))) [
  | inl more ↦
      let n = ltb→lt 8192 (length bytes) more in
      rw (more, join-pieces fuel (drop 8192 bytes) (omega (arith, f, n, length-drop 8192 bytes)))
        (take-append-drop 8192 bytes)
  | inr done ↦ rw done (append-nil (take 8192 bytes) ∙ take_all 8192 bytes (ground (arith, done)))
]
