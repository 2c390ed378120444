-- ===== src/Script/Encoding/Table.antt =====
-- Facts about one byte, checked for every byte.
use langhuan.Prelude.{ℕ, zero, suc, ◌<◌, ◌≡◌, Bool, true, ◌&&◌, arith}

module _ (test : ℕ → Bool) where
  unfoldable pub passes_to : ℕ → Bool
  passes_to zero = true
  passes_to (suc m) = passes_to m && test m

  pub passes_to_sound : (limit c : ℕ) → passes_to limit ≡ true → c < limit → test c ≡ true
  unfolding passes_to
  passes_to_sound zero c checked small = absurd (omega arith)
  passes_to_sound (suc m) c checked small = ground (arith, passes_to_sound m c)
