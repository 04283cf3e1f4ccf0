-- ===== src/Buffer/Defs.antt =====
-- A `vlib_buffer_t`, and the three functions of flow_table/core/include/flow.h that keep a flow's
-- index in the `u32` before its data.
use vpp_plugins.Base.{ℕ, ◌+◌, ◌*◌, List, [], ◌∷◌, Option, none, ◌==◌, if◌then◌else◌, get_or}
use vpp_plugins.Flow.Types.{Flow, unset32}
use vpp_plugins.Flow.Defs.{WrkCtx, flow_table_get_flow_by_index}

-- `byte off` is the byte at `b->data + off`; `unused0` and `unused1` are those of `vnet_buffer2(b)`.
pub record Buffer : Type 0 where
  pub byte : ℕ → ℕ
  pub l2_hdr_offset : ℕ
  pub l3_hdr_offset : ℕ
  pub l4_hdr_offset : ℕ
  pub rx_sw_if_index : ℕ
  pub unused0 : ℕ
  pub unused1 : ℕ
  pub flow_index : ℕ

-- Fields in network order.
abbrev pub be16 : Buffer → ℕ → ℕ
be16 b off = 256 * b.byte off + b.byte (off + 1)

abbrev pub be32 : Buffer → ℕ → ℕ
be32 b off = 65536 * be16 b off + be16 b (off + 2)

abbrev pub bytes4 : Buffer → ℕ → List ℕ
bytes4 b off = b.byte off ∷ b.byte (off + 1) ∷ b.byte (off + 2) ∷ b.byte (off + 3) ∷ []

abbrev pub bytes6 : Buffer → ℕ → List ℕ
bytes6 b off =
    b.byte off
    ∷ b.byte (off + 1)
    ∷ b.byte (off + 2)
    ∷ b.byte (off + 3)
    ∷ b.byte (off + 4)
    ∷ b.byte (off + 5)
    ∷ []

-- `FLOW_UNSET`
abbrev pub flow_unset : ℕ
flow_unset = 0

unfoldable pub vlib_buffer_init_flow : Buffer → Buffer
vlib_buffer_init_flow b = record b { flow_index = flow_unset }

unfoldable pub vlib_buffer_set_flow : Buffer → (flow : ℕ) → Buffer
vlib_buffer_set_flow b flow = record b { flow_index = flow }

unfoldable pub vlib_buffer_get_flow : {T W : Type 0} → WrkCtx T W → Buffer → Option Flow
vlib_buffer_get_flow wrk b =
    if b.flow_index == unset32 then none else flow_table_get_flow_by_index wrk b.flow_index

-- A received packet with the bytes `bytes`, whose Ethernet header is its start.
abbrev pub buffer_of : List ℕ → (sw_if_index : ℕ) → Buffer
buffer_of bytes sw_if_index = record {
  byte = λ off. get_or bytes off 0;
  l2_hdr_offset = 0;
  l3_hdr_offset = 0;
  l4_hdr_offset = 0;
  rx_sw_if_index = sw_if_index;
  unused0 = 0;
  unused1 = 0;
  flow_index = 0;
}
