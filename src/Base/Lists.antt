-- ===== src/Base/Lists.antt =====
-- Lists measured and indexed by native numbers, and byte memories.
use Prim.Native.Nat.{ℕ, zero, suc, ◌+◌, ◌-◌, ◌<◌, ◌≤◌, min}
use mathlib.Core.Path.{◌≡◌, refl, ap, ap₂, ◌∙◌}
use mathlib.Core.Logic.{◌⊎◌, inl, inr}
use mathlib.Core.Bool.{Bool, true, false}
use mathlib.Core.List.{List, [], ◌∷◌, ◌++◌}
use native.Mathlib.Omega.{arith}
use bls.Base.Tests.{◌==◌, if◌then◌else◌}

module _ {ℓ} {A : Type ℓ} where
  abbrev pub length : List A → ℕ
  length [] = 0
  length (x ∷ xs) = suc (length xs)

  abbrev pub take : ℕ → List A → List A
  take zero xs = []
  take (suc n) [] = []
  take (suc n) (x ∷ xs) = x ∷ take n xs

  abbrev pub drop : ℕ → List A → List A
  drop zero xs = xs
  drop (suc n) [] = []
  drop (suc n) (x ∷ xs) = drop n xs

  pub length-append : (xs ys : List A) → length (xs ++ ys) ≡ length xs + length ys
  length-append [] ys = omega arith
  length-append (x ∷ xs) ys = omega (arith, length-append xs ys)

  pub take-append-drop : (n : ℕ) (xs : List A) → take n xs ++ drop n xs ≡ xs
  take-append-drop zero xs = refl
  take-append-drop (suc n) [] = refl
  take-append-drop (suc n) (x ∷ xs) = ap (◌∷◌ x) (take-append-drop n xs)

  pub length-take : (n : ℕ) (xs : List A) → length (take n xs) ≡ min n (length xs)
  length-take zero xs = omega arith
  length-take (suc n) [] = omega arith
  length-take (suc n) (x ∷ xs) = omega (arith, length-take n xs)

  pub length-drop : (n : ℕ) (xs : List A) → length (drop n xs) ≡ length xs - n
  length-drop zero xs = omega arith
  length-drop (suc n) [] = omega arith
  length-drop (suc n) (x ∷ xs) = omega (arith, length-drop n xs)

-- Is the number in the list?
unfoldable pub elem : ℕ → List ℕ → Bool
elem a [] = false
elem a (x ∷ xs) = if x == a then true else elem a xs

-- How often the number is in the list.
unfoldable pub count : ℕ → List ℕ → ℕ
count a [] = 0
count a (x ∷ xs) = (if x == a then 1 else 0) + count a xs

pub count-append : (a : ℕ) (xs ys : List ℕ) → count a (xs ++ ys) ≡ count a xs + count a ys
unfolding count
count-append a [] ys = omega arith
count-append a (x ∷ xs) ys = omega (arith, count-append a xs ys)

-- A block of memory, byte by byte, from its start.
abbrev pub Mem : Type 0
Mem = ℕ → ℕ

-- The `n` bytes from position `p`.
abbrev pub peek : Mem → ℕ → ℕ → List ℕ
peek m p zero = []
peek m p (suc n) = m p ∷ peek m (p + 1) n

abbrev pub put_byte : Mem → ℕ → ℕ → Mem
put_byte m p b i = if i == p then b else m i

-- Write the bytes one after the other from position `p`.
abbrev pub poke : Mem → ℕ → List ℕ → Mem
poke m p [] = m
poke m p (b ∷ bs) = poke (put_byte m p b) (p + 1) bs

pub poke-below : (bs : List ℕ) (m : Mem) (p i : ℕ) → i < p → poke m p bs i ≡ m i
poke-below [] m p i h = refl
poke-below (b ∷ bs) m p i h = ground (arith, poke-below bs (put_byte m p b) (p + 1) i)

-- What has been written is read back.
pub peek-poke : (bs : List ℕ) (m : Mem) (p : ℕ) → peek (poke m p bs) p (length bs) ≡ bs
peek-poke [] m p = refl
peek-poke (b ∷ bs) m p =
    ap₂ ◌∷◌ (ground (arith, poke-below bs (put_byte m p b) (p + 1) p))
      (peek-poke bs (put_byte m p b) (p + 1))

pub length-peek : (m : Mem) (p n : ℕ) → length (peek m p n) ≡ n
length-peek m p zero = refl
length-peek m p (suc n) = ap suc (length-peek m (p + 1) n)

pub peek-append : (m : Mem) (p a b : ℕ) → peek m p (a + b) ≡ peek m p a ++ peek m (p + a) b
peek-append m p zero b =
    let none_more : zero + b ≡ b = omega arith in
    let same : p ≡ p + zero = omega arith in ap₂ (peek m) same none_more
peek-append m p (suc a) b =
    let longer : suc a + b ≡ suc (a + b) = omega arith in
    let next : p + 1 + a ≡ p + suc a = omega arith in
    ap (peek m p) longer
    ∙ ap (◌∷◌ (m p)) (peek-append m (p + 1) a b ∙ ap (λ q. peek m (p + 1) a ++ peek m q b) next)

pub peek-below :
    (xs : List ℕ) (m : Mem) (p q n : ℕ) → p + n ≤ q → peek (poke m q xs) p n ≡ peek m p n
peek-below xs m p q zero h = refl
peek-below xs m p q (suc n) h =
    ap₂ ◌∷◌ (poke-below xs m q p (omega (arith, h)))
      (peek-below xs m (p + 1) q n (omega (arith, h)))

-- What is written behind what stands there already.
pub peek-poke_behind :
    (old xs : List ℕ) (m : Mem)
    → peek m 0 (length old) ≡ old
    → peek (poke m (length old) xs) 0 (length (old ++ xs)) ≡ old ++ xs
peek-poke_behind old xs m e =
    ap (peek (poke m (length old) xs) 0) (length-append old xs)
    ∙ peek-append (poke m (length old) xs) 0 (length old) (length xs)
    ∙ ap₂ ◌++◌ (peek-below xs m 0 (length old) (length old) (omega arith) ∙ e) (
        ap (λ p. peek (poke m (length old) xs) p (length xs)) from_end
        ∙ peek-poke xs m (length old))
  where
    from_end : 0 + length old ≡ length old
    from_end = omega arith

pub List-cases {ℓ} :
    {A : Type ℓ} (xs : List A) → (xs ≡ []) ⊎ ((y : A) × (ys : List A) × (xs ≡ y ∷ ys))
List-cases [] = inl refl
List-cases (x ∷ xs) = inr (x, xs, refl)

pub poke-append :
    (xs ys : List ℕ) (m : Mem) (p : ℕ) → poke m p (xs ++ ys) ≡ poke (poke m p xs) (p + length xs) ys
poke-append [] ys m p = ap (λ k. poke m k ys) (omega arith)
poke-append (x ∷ xs) ys m p =
    poke-append xs ys (put_byte m p x) (p + 1)
    ∙ ap (λ k. poke (poke (put_byte m p x) (p + 1) xs) k ys) (omega arith)
