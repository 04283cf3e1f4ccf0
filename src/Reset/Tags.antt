-- ===== src/Reset/Tags.antt =====
-- `parse_vlan_tags` of flow_table/core/ip4_process.c on the packet that `tcp_send_reset` of
-- flow_table/core/proto/tcp_control.h builds.
use vpp_plugins.Buffer.Defs.{buffer_of}
use vpp_plugins.Reset.Frame.{
  vlan_tags, reset_frame, l3_offset_of, ethernet_header, ip_header, tcp_header,
}
use mathlib.Core.Path.{fun_ext}
use native.Mathlib.Nat.{zero-add, suc-add}
use mathlib.Core.List.{append_assoc}
use vpp_plugins.Reset.Verify.{IsEntry}
use vpp_plugins.Buffer.Vlan.{VlanTags, parse_vlan_tags}
use vpp_plugins.Flow.Types.{FlowEntry}
use vpp_plugins.Base.{
  arith, ℕ, ◌<◌, List, ◌≤◌, ◌*◌, length, ◌+◌, ◌≡◌, get_or, if◌then◌else◌, ◌++◌, ◌==◌, ◌||◌, ◌∙◌,
  ◌%◌, ◌∷◌, ◌/◌, suc, refl, zero, [], Bool-cases, inl, inr, ap,
}

-- The VLAN fields as the parser leaves them: ids of 12 bits, and 0 where there is no tag.
pub record IsTagged (e : FlowEntry) : Type 0 where
  pub outer_lt : e.outer_vlan_id < 4096
  pub inner_lt : e.inner_vlan_id < 4096
  pub present_le : e.vlan_present ≤ 2
  pub outer_zero : e.vlan_present ≡ 0 → e.outer_vlan_id ≡ 0
  pub inner_zero : e.vlan_present ≤ 1 → e.inner_vlan_id ≡ 0

pub get_or-skip :
    (n i : ℕ) (xs ys : List ℕ) → length xs ≡ n → get_or (xs ++ ys) (n + i) 0 ≡ get_or ys i 0
get_or-skip zero i [] ys h = rw (zero-add)
get_or-skip zero i (x ∷ xs) ys h = absurd (omega arith)
get_or-skip (suc n) i [] ys h = absurd (omega arith)
get_or-skip (suc n) i (x ∷ xs) ys h = rw suc-add (get_or-skip n i xs ys (omega arith))

-- Two MAC addresses stand before the tags.
macs-skip :
    (e : FlowEntry) (k : ℕ) (tags rest : List ℕ)
    → IsEntry e
    → get_or ((e.smac ++ (e.dmac ++ tags)) ++ rest) (6 + (6 + k)) 0 ≡ get_or (tags ++ rest) k 0
macs-skip e k tags rest h =
    rw (append_assoc e.smac (e.dmac ++ tags) rest, append_assoc e.dmac tags rest)
      (get_or-skip 6 (6 + k) e.smac (e.dmac ++ (tags ++ rest)) h.smac_length
        ∙ get_or-skip 6 k e.dmac (tags ++ rest) h.dmac_length)

-- What the parser sees of a packet is the eight bytes behind the MAC addresses.
abbrev tags_of : (outer inner present l3 : ℕ) → VlanTags
tags_of o i p l = record { outer_vlan_id = o; inner_vlan_id = i; vlan_present = p; l3_offset = l }

parse_bytes : (t : ℕ → ℕ) → VlanTags
parse_bytes t =
    let word = λ (k : ℕ). 256 * t k + t (k + 1) in
    if (word 0 == 0x8100) || (word 0 == 0x88a8)
    then (if word 4 == 0x8100
        then tags_of (word 2 % 4096) (word 6 % 4096) 2 22
        else tags_of (word 2 % 4096) 0 1 18)
    else tags_of 0 0 0 14

parse-parse_bytes :
    (bytes : List ℕ) (sw_if_index : ℕ)
    → parse_vlan_tags (buffer_of bytes sw_if_index)
      ≡ parse_bytes (λ k. get_or bytes (6 + (6 + k)) 0)
unfolding parse_vlan_tags parse_bytes
parse-parse_bytes bytes sw_if_index = refl

-- A 12-bit id comes back from its two bytes.
id_back : (x : ℕ) → x < 4096 → (256 * (x % 4096 / 256 % 256) + x % 4096 % 256) % 4096 ≡ x
id_back x h = omega arith

parse-untagged :
    (e : FlowEntry) (v : ℕ) (rest : List ℕ)
    → e.vlan_present ≡ 0
    → parse_bytes (λ k. get_or (vlan_tags e v ++ rest) k 0) ≡ tags_of 0 0 0 14
unfolding parse_bytes vlan_tags
parse-untagged e v rest p = elim (Bool-cases (v == 4)) [
  | inl four ↦ rw (p, four)
  | inr six ↦ rw (p, six)
]

parse-tagged :
    (e : FlowEntry) (v : ℕ) (rest : List ℕ)
    → e.vlan_present ≡ 1
    → e.outer_vlan_id < 4096
    → parse_bytes (λ k. get_or (vlan_tags e v ++ rest) k 0) ≡ tags_of e.outer_vlan_id 0 1 18
unfolding parse_bytes vlan_tags
parse-tagged e v rest p lt = elim (Bool-cases (v == 4)) [
  | inl four ↦ rw (p, four, id_back e.outer_vlan_id lt)
  | inr six ↦ rw (p, six, id_back e.outer_vlan_id lt)
]

parse-double :
    (e : FlowEntry) (v : ℕ) (rest : List ℕ)
    → e.vlan_present ≡ 2
    → e.outer_vlan_id < 4096
    → e.inner_vlan_id < 4096
    → parse_bytes (λ k. get_or (vlan_tags e v ++ rest) k 0)
      ≡ tags_of e.outer_vlan_id e.inner_vlan_id 2 22
unfolding parse_bytes vlan_tags
parse-double e v rest p lt lt' = rw (p, id_back e.outer_vlan_id lt, id_back e.inner_vlan_id lt')

parse-tags :
    (e : FlowEntry) (v : ℕ) (rest : List ℕ)
    → IsTagged e
    → parse_bytes (λ k. get_or (vlan_tags e v ++ rest) k 0)
      ≡ tags_of e.outer_vlan_id e.inner_vlan_id e.vlan_present (l3_offset_of e)
unfolding l3_offset_of
parse-tags e v rest h =
    ground (arith, parse-untagged e v rest, parse-tagged e v rest, parse-double e v rest)

-- For an entry whose fields have their sizes and whose VLAN fields are as the parser leaves them, the
-- plugin's parser finds in the reset packet, for both IP versions, the VLAN fields of the entry and the
-- offset at which the IP header was written.
pub parse_vlan_tags-reset_frame :
    (e : FlowEntry) (ip_version sw_if_index : ℕ)
    → IsEntry e
    → IsTagged e
    → parse_vlan_tags (buffer_of (reset_frame e ip_version) sw_if_index) ≡ record {
      outer_vlan_id = e.outer_vlan_id;
      inner_vlan_id = e.inner_vlan_id;
      vlan_present = e.vlan_present;
      l3_offset = l3_offset_of e;
    }
unfolding reset_frame ethernet_header
parse_vlan_tags-reset_frame e v sw_if_index h t =
    let rest = ip_header e v ++ tcp_header e v in
    parse-parse_bytes (reset_frame e v) sw_if_index
    ∙ ap parse_bytes (fun_ext (λ k. macs-skip e k (vlan_tags e v) rest h))
    ∙ parse-tags e v rest t
