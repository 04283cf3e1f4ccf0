-- ===== src/Checksum/Defs.antt =====
-- The checksum functions of flow_table/core/proto/tcp_control.h.
use vpp_plugins.Base.{
  ℕ, zero, suc, ◌+◌, ◌-◌, ◌*◌, ◌/◌, ◌%◌, ◌^◌, List, ◌∷◌, ◌==◌, if◌then◌else◌, get_or,
}

-- `htons` on a little-endian host: the two bytes of a `u16`, swapped.
abbrev pub htons : ℕ → ℕ
htons x = x % 256 * 256 + x / 256 % 256

-- `for (i = 0; i < n; i++) sum += p[i];` over `u16 *p`, in a `u32`.
unfoldable pub add_words : ℕ → List ℕ → ℕ → ℕ
add_words (suc n) (lo ∷ hi ∷ p) sum = add_words n p ((sum + (lo + 256 * hi)) % 2 ^ 32)
add_words n p sum = sum

-- `while (sum >> 16) sum = (sum & 0xFFFF) + (sum >> 16);` with fuel.
fold_loop : ℕ → ℕ → ℕ
fold_loop zero sum = sum
fold_loop (suc fuel) sum =
    let rest = fold_loop fuel ((sum % 2 ^ 16 + sum / 2 ^ 16) % 2 ^ 32) in
    if sum / 2 ^ 16 == 0 then sum else rest

-- Two rounds are enough for every `u32`.
unfoldable pub fold_to_16_bits : ℕ → ℕ
unfolding fold_loop
fold_to_16_bits sum = fold_loop 2 sum

-- `return ~sum;` of a `u32` as a `u16`.
abbrev pub complement : ℕ → ℕ
complement sum = (2 ^ 32 - 1 - sum) % 2 ^ 16

-- `ip4` is the header's 20 bytes.
unfoldable pub flow_table_ip4_checksum : List ℕ → ℕ
flow_table_ip4_checksum ip4 = complement (fold_to_16_bits (add_words 10 ip4 0))

-- `if (tcp_len & 1) sum += ((u8 *)tcp)[tcp_len - 1];`
unfoldable pub add_odd_byte : List ℕ → ℕ → ℕ → ℕ
add_odd_byte tcp tcp_len sum =
    if tcp_len % 2 == 1 then (sum + get_or tcp (tcp_len - 1) 0) % 2 ^ 32 else sum

-- The loop over the TCP header and its data, the odd byte, the fold and the complement, which both
-- of the functions below end with.
unfoldable pub finish_tcp_checksum : List ℕ → ℕ → ℕ → ℕ
finish_tcp_checksum tcp tcp_len sum =
    complement (fold_to_16_bits (add_odd_byte tcp tcp_len (add_words (tcp_len / 2) tcp sum)))

-- `addresses` is the 8 bytes of the source and the destination address.
unfoldable pub flow_table_tcp_checksum : (addresses : List ℕ) (protocol : ℕ) (tcp : List ℕ) → ℕ → ℕ
flow_table_tcp_checksum addresses protocol tcp tcp_len =
    finish_tcp_checksum tcp tcp_len
      (((add_words 4 addresses 0 + htons protocol) % 2 ^ 32 + htons tcp_len) % 2 ^ 32)

-- `src_address` and `dst_address` have 16 bytes each.
unfoldable pub flow_table_tcp_checksum_ip6 :
    (src_address dst_address : List ℕ) (protocol : ℕ) (tcp : List ℕ) → ℕ → ℕ
flow_table_tcp_checksum_ip6 src_address dst_address protocol tcp tcp_len =
    let sum = add_words 8 dst_address (add_words 8 src_address 0) in
    let sum = (sum + htons (tcp_len / 2 ^ 16)) % 2 ^ 32 in
    let sum = (sum + htons (tcp_len % 2 ^ 16)) % 2 ^ 32 in
    finish_tcp_checksum tcp tcp_len ((sum + htons protocol) % 2 ^ 32)
