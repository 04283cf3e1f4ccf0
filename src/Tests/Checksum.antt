-- ===== src/Tests/Checksum.antt =====
-- The checksum functions of flow_table/core/proto/tcp_control.h.
use vpp_plugins.Checksum.Headers.{
  flow_table_ip4_checksum-internet_checksum, pseudo_header_ip6, pseudo_header,
  flow_table_tcp_checksum-internet_checksum, flow_table_tcp_checksum_ip6-internet_checksum,
}
use vpp_plugins.Checksum.Reference.{internet_checksum}
use vpp_plugins.Checksum.Fold.{Folded, fold_to_16_bits-Folded}
use vpp_plugins.Checksum.Defs.{
  flow_table_ip4_checksum, flow_table_tcp_checksum, flow_table_tcp_checksum_ip6, fold_to_16_bits,
}
use vpp_plugins.Base.{arith, ℕ, List, ◌∷◌, ◌++◌, ◌≡◌, [], refl}

fold_to_16_bits-Folded_example : Folded (fold_to_16_bits 0xfffeffff) 0xfffeffff
fold_to_16_bits-Folded_example = fold_to_16_bits-Folded 0xfffeffff (omega arith)

-- A header with a checksum of its own.
abbrev a_header : List ℕ
a_header =
    69 ∷ 0 ∷ 0 ∷ 115 ∷ 0 ∷ 0 ∷ 64 ∷ 0 ∷ 64 ∷ 17 ∷ 184 ∷ 97 ∷ 192 ∷ 168 ∷ 0 ∷ 1 ∷ 192 ∷ 168 ∷ 0 ∷ 199
    ∷ []

flow_table_ip4_checksum-internet_checksum_example :
    flow_table_ip4_checksum a_header ≡ internet_checksum a_header
flow_table_ip4_checksum-internet_checksum_example =
    flow_table_ip4_checksum-internet_checksum a_header refl (omega arith)

abbrev addresses : List ℕ
addresses = 10 ∷ 0 ∷ 0 ∷ 1 ∷ 10 ∷ 0 ∷ 0 ∷ 2 ∷ []

-- A segment of odd length: a header without a checksum, and five bytes.
abbrev before_field : List ℕ
before_field = 0 ∷ 80 ∷ 0 ∷ 50 ∷ 0 ∷ 0 ∷ 0 ∷ 9 ∷ 0 ∷ 0 ∷ 0 ∷ 5 ∷ 80 ∷ 20 ∷ 0 ∷ 0 ∷ []

abbrev behind_field : List ℕ
behind_field = 0 ∷ 0 ∷ 104 ∷ 101 ∷ 108 ∷ 108 ∷ 111 ∷ []

abbrev segment : List ℕ
segment = before_field ++ 0 ∷ 0 ∷ behind_field

flow_table_tcp_checksum-internet_checksum_example :
    flow_table_tcp_checksum addresses 6 segment 25
    ≡ internet_checksum (pseudo_header addresses 6 25 ++ segment)
flow_table_tcp_checksum-internet_checksum_example =
    flow_table_tcp_checksum-internet_checksum addresses 6 segment 25 refl (omega arith)
      (omega arith) refl (omega arith) (omega arith)

abbrev address6 : ℕ → List ℕ
address6 x = 32 ∷ 1 ∷ 13 ∷ 184 ∷ 0 ∷ 0 ∷ 0 ∷ 0 ∷ 0 ∷ 0 ∷ 0 ∷ 0 ∷ 0 ∷ 0 ∷ 0 ∷ x ∷ []

flow_table_tcp_checksum_ip6-internet_checksum_example :
    flow_table_tcp_checksum_ip6 (address6 1) (address6 2) 6 segment 25
    ≡ internet_checksum (pseudo_header_ip6 (address6 1) (address6 2) 6 25 ++ segment)
flow_table_tcp_checksum_ip6-internet_checksum_example =
    flow_table_tcp_checksum_ip6-internet_checksum (address6 1) (address6 2) 6 segment 25 refl refl
      (omega arith) (omega arith) (omega arith) refl (omega arith) (omega arith)
