-- ===== src/Checksum/Reference.antt =====
-- The Internet checksum of RFC 1071: the one's complement of the one's complement sum of the words,
-- a carry added back in at each word. The code's sums defer the carries.
use vpp_plugins.Base.{ℕ, ◌+◌, ◌-◌, ◌*◌, ◌^◌, ◌<◌, ◌≡◌, List, [], ◌∷◌, arith}
use vpp_plugins.Checksum.Defs.{complement}
use vpp_plugins.Checksum.Fold.{
  Folded, ones_add, Folded-unique, fold_to_16_bits-Folded, ones_add-Folded,
}
use vpp_plugins.Checksum.Words.{IsBytes, word_sum}
use vpp_plugins.Checksum.Defs.{fold_to_16_bits}

pub ones_sum : ℕ → List ℕ → ℕ
ones_sum sum [] = sum
ones_sum sum (lo ∷ []) = ones_add sum lo
ones_sum sum (lo ∷ hi ∷ bs) = ones_sum (ones_add sum (lo + 256 * hi)) bs

unfoldable pub internet_checksum : List ℕ → ℕ
internet_checksum bs = 65535 - ones_sum 0 bs

ones_sum-Folded :
    (r s : ℕ) (bs : List ℕ) → Folded r s → IsBytes bs → Folded (ones_sum r bs) (s + word_sum bs)
unfolding ones_sum
ones_sum-Folded r s [] f h = omega arith
ones_sum-Folded r s (lo ∷ []) f h = ones_add-Folded r s lo f (omega arith)
ones_sum-Folded r s (lo ∷ hi ∷ bs) f h =
    let f' = ones_add-Folded r s (lo + 256 * hi) f (omega arith) in
    let more = ones_sum-Folded (ones_add r (lo + 256 * hi)) (s + (lo + 256 * hi)) bs f' h.1.1 in
    omega (arith, more)

-- The deferred carries give the checksum of the bytes whose plain sum they fold.
pub complement-internet_checksum :
    (s : ℕ) (bs : List ℕ)
    → s ≡ word_sum bs
    → s < 2 ^ 32
    → IsBytes bs
    → complement (fold_to_16_bits s) ≡ internet_checksum bs
unfolding internet_checksum
complement-internet_checksum s bs e lt h =
    let zero_Folded : Folded 0 0 = omega arith in
    let f = fold_to_16_bits-Folded s lt in
    let g = ones_sum-Folded 0 0 bs zero_Folded h in
    omega (arith, Folded-unique (fold_to_16_bits s) (ones_sum 0 bs) s f (rw (← sum) g), f)
  where
    sum : 0 + word_sum bs ≡ s
    sum = omega arith

-- An Internet checksum is a `u16`, and its complement is what is left of the plain sum.
pub internet_checksum-Folded :
    (bs : List ℕ)
    → IsBytes bs
    → Folded (65535 - internet_checksum bs) (word_sum bs) × (internet_checksum bs < 2 ^ 16)
unfolding internet_checksum
internet_checksum-Folded bs h =
    let zero_Folded : Folded 0 0 = omega arith in
    let sum = ones_sum-Folded 0 0 bs zero_Folded h in
    let back : 65535 - (65535 - ones_sum 0 bs) ≡ ones_sum 0 bs = omega (arith, sum) in
    let plain : 0 + word_sum bs ≡ word_sum bs = omega arith in
    (rw back (rw plain at sum), omega arith)
