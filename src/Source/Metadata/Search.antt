-- ===== src/Source/Metadata/Search.antt =====
-- The search for the recorded time (src/BlsSource.cpp).
use bls.Base.{
  ℕ, zero, suc, ◌+◌, ◌-◌, ◌≤◌, ◌<◌, ◌≡◌, sym, subst, inl, inr, Bool, true, false, Option, none,
  some, Mem, peek, arith, Returns, Returns-elim, leb, ltb, le→leb, ltb→lt, Bool-cases, ◌==◌,
}
use bls.Source.Metadata.{find_key, same, abs_record_time_key, search_limit}

-- Does the key stand at the position?
abbrev pub stands_at : Mem → ℕ → Bool
stands_at buf i = same (peek buf i 13) abs_record_time_key

-- No position from `i` on, below `k`, has the key.
abbrev pub NotBefore : Mem → ℕ → ℕ → Type 0
NotBefore buf i k = (j : ℕ) → i ≤ j → j < k → stands_at buf j ≡ false

-- The result of a search from `i` on.
abbrev pub IsFirst : Mem → ℕ → ℕ → Option ℕ → Type 0
IsFirst buf i limit none = NotBefore buf i limit
IsFirst buf i limit (some k) = (i ≤ k) × (k < limit) × (stands_at buf k ≡ true) × NotBefore buf i k

not_here :
    (buf : Mem) (i k : ℕ) → stands_at buf i ≡ false → NotBefore buf (i + 1) k → NotBefore buf i k
not_here buf i k h n j a b = elim (Bool-cases (i == j)) [
  | inl e ↦ subst (λ p. stands_at buf p ≡ false) (ground (arith, e)) h
  | inr e ↦ n j (ground (arith, a, e)) b
]

IsFirst-back :
    (buf : Mem) (i limit : ℕ) (o : Option ℕ)
    → stands_at buf i ≡ false
    → IsFirst buf (i + 1) limit o
    → IsFirst buf i limit o
IsFirst-back buf i limit none h n = not_here buf i limit h n
IsFirst-back buf i limit (some k) h (a, b, c, n) = (omega (arith, a), b, c, not_here buf i k h n)

find_key-IsFirst :
    (fuel i limit : ℕ) (buf : Mem)
    → i ≤ limit
    → limit < i + fuel
    → limit ≤ 2988
    → Returns (find_key fuel buf i limit) (IsFirst buf i limit)
unfolding find_key
find_key-IsFirst zero i limit buf a b c = absurd (omega (arith, a, b))
find_key-IsFirst (suc fuel) i limit buf a b c = elim (Bool-cases (ltb i limit)) [
  | inr done ↦ rw done (λ j p q. absurd (ground (arith, done, p, q)))
  | inl more ↦
      let below = ltb→lt i limit more in
      let inside : leb (i + 13) 3000 ≡ true = le→leb (i + 13) 3000 (omega (arith, below, c)) in
      elim (Bool-cases (stands_at buf i)) [
        | inl here ↦
            rw (more, inside, here)
              (omega arith, below, here, λ j p q. absurd (omega (arith, p, q)))
        | inr gone ↦
            let (o, e, f) =
              Returns-elim (find_key fuel buf (i + 1) limit) (IsFirst buf (i + 1) limit) (
                find_key-IsFirst fuel (i + 1) limit buf (omega (arith, below)) (omega (arith, b))
                  c) in
            rw (more, inside, gone, e) (IsFirst-back buf i limit o gone f)
      ]
]

-- For metadata of 13 to 3000 bytes the search ends within the fuel it is given and inside the buffer:
-- it gives the first position at which the key stands, of those with more than 13 bytes from there to
-- the end of the metadata, or nothing where the key stands at none of them.
pub find_key_ends :
    (buf : Mem) (len : ℕ)
    → 13 ≤ len
    → len ≤ 3000
    → Returns (find_key 3001 buf 0 (search_limit len)) (IsFirst buf 0 (len - 13))
find_key_ends buf len a b =
    let same_limit : search_limit len ≡ len - 13 = omega (arith, a, b) in
    subst (λ n. Returns (find_key 3001 buf 0 n) (IsFirst buf 0 (len - 13))) (sym same_limit)
      (find_key-IsFirst 3001 0 (len - 13) buf (omega arith) (omega (arith, a, b))
        (omega (arith, b)))
