-- ===== src/Checksum/Verify.antt =====
-- A header that carries its checksum passes the receiver's test of RFC 1071: the checksum of the
-- whole is 0.
use mathlib.Core.List.{append_assoc}
use vpp_plugins.Base.{
  ap, ℕ, ◌+◌, ◌-◌, ◌*◌, ◌/◌, ◌%◌, ◌^◌, ◌<◌, ◌≡◌, sym, ◌∙◌, List, [], ◌∷◌, ◌++◌, arith, length,
  length-append,
}
use vpp_plugins.Checksum.Defs.{flow_table_ip4_checksum, flow_table_tcp_checksum}
use vpp_plugins.Checksum.Fold.{Folded}
use vpp_plugins.Checksum.Words.{IsBytes, IsBytes-append, word_sum, word_sum-append}
use vpp_plugins.Checksum.Reference.{internet_checksum, internet_checksum-Folded}
use vpp_plugins.Checksum.Headers.{
  pseudo_header, flow_table_ip4_checksum-internet_checksum,
  flow_table_tcp_checksum-internet_checksum,
}

-- Bytes `a` and `b` with the `u16` field `c` between them, as a little-endian host stores it.
abbrev pub with_field : List ℕ → ℕ → List ℕ → List ℕ
with_field a c b = a ++ c % 256 ∷ c / 256 ∷ b

with_field-IsBytes :
    (a : List ℕ) (c : ℕ) (b : List ℕ)
    → IsBytes a
    → IsBytes b
    → c < 2 ^ 16
    → IsBytes (with_field a c b)
with_field-IsBytes a c b ha hb hc =
    IsBytes-append a (c % 256 ∷ c / 256 ∷ b) ha (omega arith, (omega arith, hb))

-- The remainder of a sum whose complement was added to it.
complement_added : (r r' s : ℕ) → Folded r s → Folded r' (s + (65535 - r)) → r' ≡ 65535
complement_added r r' s h h' = grind arith

internet_checksum-verify :
    (n : ℕ) (a b : List ℕ)
    → length a ≡ 2 * n
    → IsBytes a
    → IsBytes b
    → internet_checksum (with_field a (internet_checksum (with_field a 0 b)) b) ≡ 0
internet_checksum-verify n a b l ha hb =
    let c = internet_checksum (with_field a 0 b) in
    let before = internet_checksum-Folded (with_field a 0 b) empty in
    let after =
      internet_checksum-Folded (with_field a c b)
        (with_field-IsBytes a c b ha hb (omega (arith, before))) in
    let sum : word_sum (with_field a c b) ≡ word_sum (with_field a 0 b) + c =
      omega
        (arith, word_sum-append n a (0 ∷ 0 ∷ b) l, word_sum-append n a (c % 256 ∷ c / 256 ∷ b) l) in
    let whole =
      complement_added (65535 - c) (65535 - internet_checksum (with_field a c b))
        (word_sum (with_field a 0 b)) before.0
        (let shift : word_sum (with_field a 0 b) + (65535 - (65535 - c))
              ≡ word_sum (with_field a c b) =
            omega (arith, sum, before) in
          rw shift after.0) in
    omega (arith, whole)
  where
    empty : IsBytes (with_field a 0 b)
    empty = with_field-IsBytes a 0 b ha hb (omega arith)

-- An IPv4 header with 10 bytes before its checksum field and 8 behind it, whose field holds the
-- checksum computed while it was 0, has checksum 0.
pub flow_table_ip4_checksum-verify :
    (a b : List ℕ)
    → length a ≡ 10
    → length b ≡ 8
    → IsBytes a
    → IsBytes b
    → flow_table_ip4_checksum (with_field a (flow_table_ip4_checksum (with_field a 0 b)) b) ≡ 0
flow_table_ip4_checksum-verify a b la lb ha hb = rw (code 0 (omega arith)) (
    rw (code _ (internet_checksum-Folded (with_field a 0 b) (empty)).1)
      (internet_checksum-verify 5 a b la ha hb))
  where
    empty : IsBytes (with_field a 0 b)
    empty = with_field-IsBytes a 0 b ha hb (omega arith)

    code :
        (c : ℕ)
        → c < 2 ^ 16
        → flow_table_ip4_checksum (with_field a c b) ≡ internet_checksum (with_field a c b)
    code c fits =
        flow_table_ip4_checksum-internet_checksum (with_field a c b)
          (omega (arith, length-append {0} a (c % 256 ∷ c / 256 ∷ b)))
          (with_field-IsBytes a c b ha hb fits)

-- A TCP segment between any IPv4 addresses, whose checksum field at offset 16 holds the checksum
-- computed while it was 0, has checksum 0; the segment has any length below 64 KiB.
pub flow_table_tcp_checksum-verify :
    (addresses : List ℕ) (protocol : ℕ) (a b : List ℕ) (len : ℕ)
    → length addresses ≡ 8
    → IsBytes addresses
    → protocol < 256
    → length a ≡ 16
    → length b + 18 ≡ len
    → len < 2 ^ 16
    → IsBytes a
    → IsBytes b
    → flow_table_tcp_checksum addresses protocol
        (with_field a (flow_table_tcp_checksum addresses protocol (with_field a 0 b) len) b)
        len
      ≡ 0
flow_table_tcp_checksum-verify addresses protocol a b len lA hA hp la lb fits ha hb =
    let small = (internet_checksum-Folded (with_field (before ++ a) 0 b) empty).1 in
    rw (code 0 (omega arith))
      (rw (code _ small) (internet_checksum-verify 14 (before ++ a) b even hx hb))
  where
    before : List ℕ
    before = pseudo_header addresses protocol len

    even : length (before ++ a) ≡ 2 * 14
    even = omega (
      arith,
      length-append {0} before a,
      length-append {0} addresses (0 ∷ protocol ∷ len / 256 ∷ len % 256 ∷ []),
    )

    hx : IsBytes (before ++ a)
    hx =
        IsBytes-append before a
          (IsBytes-append addresses (0 ∷ protocol ∷ len / 256 ∷ len % 256 ∷ []) hA (omega arith)) ha

    empty : IsBytes (with_field (before ++ a) 0 b)
    empty = with_field-IsBytes (before ++ a) 0 b hx hb (omega arith)

    code :
        (c : ℕ)
        → c < 2 ^ 16
        → flow_table_tcp_checksum addresses protocol (with_field a c b) len
          ≡ internet_checksum (with_field (before ++ a) c b)
    code c fits_u16 =
        flow_table_tcp_checksum-internet_checksum addresses protocol (with_field a c b) len lA hA hp
          (omega (arith, lb, length-append {0} a (c % 256 ∷ c / 256 ∷ b)))
          (with_field-IsBytes a c b ha hb fits_u16) fits
        ∙ ap internet_checksum (sym (append_assoc before a (c % 256 ∷ c / 256 ∷ b)))
