-- ===== src/Checksum/Words.antt =====
-- Sums of the little-endian words of a list of bytes, without the wrap of a `u32`.
use vpp_plugins.Base.{
  ℕ, zero, suc, ◌+◌, ◌-◌, ◌*◌, ◌/◌, ◌%◌, ◌^◌, ◌≤◌, ◌<◌, ◌≡◌, refl, ◌∙◌, List, [], ◌∷◌, ◌++◌, ◌==◌,
  if◌then◌else◌, Bool-cases, true, inl, inr, arith, length, get_or, All,
}
use vpp_plugins.Checksum.Defs.{add_words, add_odd_byte}

abbrev pub IsBytes : List ℕ → Type 0
IsBytes = All (λ b. b < 256)

-- An odd last byte counts as the low byte of a word, as if a zero followed it.
abbrev pub word_sum : List ℕ → ℕ
word_sum [] = 0
word_sum (lo ∷ []) = lo
word_sum (lo ∷ hi ∷ bs) = lo + 256 * hi + word_sum bs

pub word_sum-bound : (bs : List ℕ) → IsBytes bs → 2 * word_sum bs ≤ 65535 * (length bs + 1)
word_sum-bound [] h = omega arith
word_sum-bound (lo ∷ []) h = omega arith
word_sum-bound (lo ∷ hi ∷ bs) h = omega (arith, word_sum-bound bs h.1.1)

pub IsBytes-append : (xs ys : List ℕ) → IsBytes xs → IsBytes ys → IsBytes (xs ++ ys)
IsBytes-append [] ys h k = k
IsBytes-append (x ∷ xs) ys h k = (h.0, IsBytes-append xs ys h.1 k)

pub word_sum-append :
    (n : ℕ) (xs ys : List ℕ) → length xs ≡ 2 * n → word_sum (xs ++ ys) ≡ word_sum xs + word_sum ys
word_sum-append zero [] ys h = omega arith
word_sum-append zero (x ∷ xs) ys h = absurd (omega arith)
word_sum-append (suc n) [] ys h = absurd (omega arith)
word_sum-append (suc n) (x ∷ []) ys h = absurd (omega arith)
word_sum-append (suc n) (x ∷ y ∷ xs) ys h = omega (arith, word_sum-append n xs ys (omega arith))

-- The word loop and the odd byte behind it, at index `k`.
add_words-odd :
    (n k o : ℕ) (bs : List ℕ) (acc : ℕ)
    → k ≡ 2 * n
    → o < 2
    → length bs ≡ 2 * n + o
    → acc + word_sum bs < 2 ^ 32
    → add_words n bs acc + (if o == 1 then get_or bs k 0 else 0) ≡ acc + word_sum bs
unfolding add_words
add_words-odd zero zero o [] acc e lt l b = ground arith
add_words-odd zero zero o (x ∷ []) acc e lt l b = ground arith
add_words-odd zero zero o (x ∷ y ∷ bs) acc e lt l b = absurd (omega arith)
add_words-odd zero (suc k) o bs acc e lt l b = absurd (omega arith)
add_words-odd (suc n) zero o bs acc e lt l b = absurd (omega arith)
add_words-odd (suc n) (suc zero) o bs acc e lt l b = absurd (omega arith)
add_words-odd (suc n) (suc (suc k)) o [] acc e lt l b = absurd (omega arith)
add_words-odd (suc n) (suc (suc k)) o (x ∷ []) acc e lt l b = absurd (omega arith)
add_words-odd (suc n) (suc (suc k)) o (x ∷ y ∷ bs) acc e lt l b =
    let fits : (acc + (x + 256 * y)) % 2 ^ 32 ≡ acc + (x + 256 * y) = omega arith in
    rw fits (
      add_words-odd n k o bs (acc + (x + 256 * y)) (omega arith) lt (omega arith) (omega arith)
      ∙ omega arith)

-- Sums of a header of `2 * n` bytes that fit in a `u32` are the plain sums.
pub add_words-word_sum :
    (n : ℕ) (bs : List ℕ) (acc : ℕ)
    → length bs ≡ 2 * n
    → acc + word_sum bs < 2 ^ 32
    → add_words n bs acc ≡ acc + word_sum bs
add_words-word_sum n bs acc l b =
    omega (arith, add_words-odd n (2 * n) 0 bs acc refl (omega arith) (omega arith) b)

-- With the odd byte, so is the sum of any number of bytes.
pub add_odd_byte-word_sum :
    (bs : List ℕ) (len acc : ℕ)
    → length bs ≡ len
    → acc + word_sum bs < 2 ^ 32
    → add_odd_byte bs len (add_words (len / 2) bs acc) ≡ acc + word_sum bs
unfolding add_odd_byte
add_odd_byte-word_sum bs len acc l b = elim (Bool-cases (len % 2 == 1)) [
  | inl odd ↦ rw (odd, odd_index len odd) (omega (arith, rw odd at all))
  | inr even ↦ rw even (omega (arith, rw even at all))
]
  where
    odd_index : (len : ℕ) → (len % 2 == 1) ≡ true → len - 1 ≡ 2 * (len / 2)
    odd_index len h = ground arith

    all :
        add_words (len / 2) bs acc + (if len % 2 == 1 then get_or bs (2 * (len / 2)) 0 else 0)
        ≡ acc + word_sum bs
    all =
        add_words-odd (len / 2) (2 * (len / 2)) (len % 2) bs acc refl (omega arith) (omega arith) b
