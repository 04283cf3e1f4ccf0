-- ===== src/Checksum/Headers.antt =====
-- The three checksum functions of flow_table/core/proto/tcp_control.h against RFC 1071.
use vpp_plugins.Base.{
  ℕ, ◌+◌, ◌*◌, ◌/◌, ◌%◌, ◌^◌, ◌≤◌, ◌<◌, ◌≡◌, ◌∙◌, List, [], ◌∷◌, ◌++◌, arith, length, length-append,
}
use vpp_plugins.Checksum.Defs.{
  add_words, flow_table_ip4_checksum, finish_tcp_checksum, flow_table_tcp_checksum,
  flow_table_tcp_checksum_ip6,
}
use vpp_plugins.Checksum.Words.{
  IsBytes, IsBytes-append, word_sum, word_sum-append, word_sum-bound, add_words-word_sum,
  add_odd_byte-word_sum,
}
use vpp_plugins.Checksum.Reference.{internet_checksum, complement-internet_checksum}

-- The pseudo header of a TCP segment over IPv4: the addresses, a zero, the protocol, the length.
abbrev pub pseudo_header : List ℕ → ℕ → ℕ → List ℕ
pseudo_header addresses protocol len = addresses ++ 0 ∷ protocol ∷ len / 256 ∷ len % 256 ∷ []

-- The pseudo header over IPv6: the addresses, a 32-bit length, three zeros, the next header.
abbrev pub pseudo_header_ip6 : List ℕ → List ℕ → ℕ → ℕ → List ℕ
pseudo_header_ip6 src dst protocol len =
    src ++ (dst ++ 0 ∷ 0 ∷ len / 256 ∷ len % 256 ∷ 0 ∷ 0 ∷ 0 ∷ protocol ∷ [])

-- The header checksum of any 20 bytes is their Internet checksum.
pub flow_table_ip4_checksum-internet_checksum :
    (ip4 : List ℕ)
    → length ip4 ≡ 20
    → IsBytes ip4
    → flow_table_ip4_checksum ip4 ≡ internet_checksum ip4
unfolding flow_table_ip4_checksum
flow_table_ip4_checksum-internet_checksum ip4 l h =
    complement-internet_checksum (add_words 10 ip4 0) ip4 (omega (arith, sums))
      (omega (arith, sums, word_sum-bound ip4 h)) h
  where
    sums : add_words 10 ip4 0 ≡ 0 + word_sum ip4
    sums = add_words-word_sum 10 ip4 0 l (omega (arith, word_sum-bound ip4 h))

-- The end of both TCP checksums: over a sum `acc` of the words of `before`, the result is the
-- Internet checksum of `before` and the segment.
finish_tcp_checksum-internet_checksum :
    (n acc : ℕ) (before tcp : List ℕ) (len : ℕ)
    → length before ≡ 2 * n
    → acc ≡ word_sum before
    → acc ≤ 65535 * 20
    → IsBytes before
    → IsBytes tcp
    → length tcp ≡ len
    → len < 2 ^ 16
    → finish_tcp_checksum tcp len acc ≡ internet_checksum (before ++ tcp)
unfolding finish_tcp_checksum
finish_tcp_checksum-internet_checksum n acc before tcp len lb e small hb ht lt fits =
    let bound : acc + word_sum tcp < 2 ^ 32 = omega (arith, word_sum-bound tcp ht) in
    let sums = add_odd_byte-word_sum tcp len acc lt bound in
    complement-internet_checksum _ (before ++ tcp)
      (sums ∙ omega (arith, word_sum-append n before tcp lb)) (omega (arith, sums))
      (IsBytes-append before tcp hb ht)

-- The checksum of any segment of bytes shorter than 64 KiB, of even or odd length, for any protocol
-- number below 256 and between any IPv4 addresses, is the Internet checksum of the pseudo header followed by the segment.
pub flow_table_tcp_checksum-internet_checksum :
    (addresses : List ℕ) (protocol : ℕ) (tcp : List ℕ) (len : ℕ)
    → length addresses ≡ 8
    → IsBytes addresses
    → protocol < 256
    → length tcp ≡ len
    → IsBytes tcp
    → len < 2 ^ 16
    → flow_table_tcp_checksum addresses protocol tcp len
      ≡ internet_checksum (pseudo_header addresses protocol len ++ tcp)
unfolding flow_table_tcp_checksum
flow_table_tcp_checksum-internet_checksum addresses protocol tcp len la ha hp lt ht fits =
    finish_tcp_checksum-internet_checksum 6 _ (pseudo_header addresses protocol len) tcp len
      (omega (arith, length-append {0} addresses tail))
      (omega (arith, sums, word_sum-append 4 addresses tail la, word_sum-bound addresses ha))
      (omega (arith, sums, word_sum-bound addresses ha))
      (IsBytes-append addresses tail ha (omega arith)) ht lt fits
  where
    tail : List ℕ
    tail = 0 ∷ protocol ∷ len / 256 ∷ len % 256 ∷ []

    sums : add_words 4 addresses 0 ≡ 0 + word_sum addresses
    sums = add_words-word_sum 4 addresses 0 la (omega (arith, word_sum-bound addresses ha))

-- The checksum of any segment of bytes shorter than 64 KiB, for any protocol number below 256 and
-- between any IPv6 addresses, is the Internet
-- checksum of the IPv6 pseudo header followed by the segment.
pub flow_table_tcp_checksum_ip6-internet_checksum :
    (src dst : List ℕ) (protocol : ℕ) (tcp : List ℕ) (len : ℕ)
    → length src ≡ 16
    → length dst ≡ 16
    → IsBytes src
    → IsBytes dst
    → protocol < 256
    → length tcp ≡ len
    → IsBytes tcp
    → len < 2 ^ 16
    → flow_table_tcp_checksum_ip6 src dst protocol tcp len
      ≡ internet_checksum (pseudo_header_ip6 src dst protocol len ++ tcp)
unfolding flow_table_tcp_checksum_ip6
flow_table_tcp_checksum_ip6-internet_checksum src dst protocol tcp len ls ld hs hd hp lt ht fits =
    finish_tcp_checksum-internet_checksum 20 _ (pseudo_header_ip6 src dst protocol len) tcp len
      (omega (arith, length-append {0} src (dst ++ tail), length-append {0} dst tail))
      (omega (
        arith,
        sums,
        word_sum-append 8 src (dst ++ tail) ls,
        word_sum-append 8 dst tail ld,
        word_sum-bound src hs,
        word_sum-bound dst hd,
      ))
      (omega (arith, sums, word_sum-bound src hs, word_sum-bound dst hd))
      (IsBytes-append src (dst ++ tail) hs (IsBytes-append dst tail hd (omega arith))) ht lt fits
  where
    tail : List ℕ
    tail = 0 ∷ 0 ∷ len / 256 ∷ len % 256 ∷ 0 ∷ 0 ∷ 0 ∷ protocol ∷ []

    first : add_words 8 src 0 ≡ 0 + word_sum src
    first = add_words-word_sum 8 src 0 ls (omega (arith, word_sum-bound src hs))

    sums : add_words 8 dst (add_words 8 src 0) ≡ word_sum src + word_sum dst
    sums = rw first (
        add_words-word_sum 8 dst (0 + word_sum src) ld
          (omega (arith, word_sum-bound src hs, word_sum-bound dst hd))
        ∙ omega arith)
