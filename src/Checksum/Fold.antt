-- ===== src/Checksum/Fold.antt =====
-- The fold of a 32-bit sum to 16 bits.
use vpp_plugins.Base.{ℕ, ◌+◌, ◌-◌, ◌%◌, ◌^◌, ◌≤◌, ◌<◌, ◌≡◌, if◌then◌else◌, ltb, arith}
use vpp_plugins.Checksum.Defs.{fold_to_16_bits}

-- `r` is what is left of `s` when carries out of 16 bits are added back in.
abbrev pub Folded : ℕ → ℕ → Type 0
Folded r s = (r < 2 ^ 16) × (s % 65535 ≡ r % 65535) × (r ≡ 0 → s ≡ 0) × (r ≤ s)

-- One's complement addition, with the end-around carry of RFC 1071.
unfoldable pub ones_add : ℕ → ℕ → ℕ
ones_add a b = if ltb (a + b) 65536 then a + b else a + b - 65535

-- A sum has one remainder.
pub Folded-unique : (r r' s : ℕ) → Folded r s → Folded r' s → r ≡ r'
Folded-unique r r' s h h' = grind arith

-- For every `u32` the loop ends by its test within its fuel, on the remainder of the sum.
pub fold_to_16_bits-Folded : (s : ℕ) → s < 2 ^ 32 → Folded (fold_to_16_bits s) s
unfolding fold_to_16_bits
fold_to_16_bits-Folded s h = ground arith

-- Adding a word by one's complement keeps up with the plain sum.
pub ones_add-Folded : (r s w : ℕ) → Folded r s → w < 2 ^ 16 → Folded (ones_add r w) (s + w)
unfolding ones_add
ones_add-Folded r s w h b = ground arith
