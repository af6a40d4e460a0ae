-- ===== src/Binding/Log.antt =====
-- `write_log` (src/addon.cpp): the text goes to a formatting function.
use bls.Base.{ℕ, ◌≡◌, refl, ap, false, List, [], ◌∷◌, ◌==◌, if◌then◌else◌, elem, length, suc, arith}

-- '%' becomes '@'.
abbrev pub escape : ℕ → ℕ
escape ch = if ch == 37 then 64 else ch

-- The loop, over the characters before the terminating 0.
unfoldable pub write_log : List ℕ → List ℕ
write_log [] = []
write_log (ch ∷ chs) = escape ch ∷ write_log chs

-- The text that is logged has no conversion in it, is as long as the one that was given, and is that
-- one where that had none.
pub write_log_lem :
    (text : List ℕ)
    → (elem 37 (write_log text) ≡ false)
      × (length (write_log text) ≡ length text)
      × (elem 37 text ≡ false → write_log text ≡ text)
unfolding write_log elem
write_log_lem [] = (refl, refl, λ h. refl)
write_log_lem (ch ∷ chs) =
    let (a, b, e) = write_log_lem chs in (ground (arith, a), ap suc b, λ h. ground (arith, h, e))
