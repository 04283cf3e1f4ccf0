-- ===== src/Flow/Vpp.antt =====
-- What the plugin calls of VPP, as parameters: the hash table, the pool's choice of a slot, the
-- timer wheel, the hash function over the words of a key, the interfaces and the buffers. The laws
-- are VPP's documented behaviour.
use vpp_plugins.Base.{ℕ, ◌<◌, ◌≡◌, List, Bool, Option, none, some, ◌==◌, if◌then◌else◌}
use vpp_plugins.Flow.Types.{Flow, FlowKey, EntryRef, unset32}

-- A packet handed to an interface's output node, with the metadata of its buffer.
pub record Sent : Type 0 where
  pub bytes : List ℕ
  pub l3_hdr_offset : ℕ
  pub l4_hdr_offset : ℕ
  pub current_length : ℕ
  pub is_ip4 : Bool
  pub tx_sw_if_index : ℕ
  pub next_node_index : ℕ

-- `T` is the type of hash tables and `W` that of timer wheels.
pub record Vpp (T W : Type 0) : Type 0 where
  pub hash_get : T → ℕ → Option EntryRef
  pub hash_set : T → ℕ → EntryRef → T
  -- A key holds what was last set for it. `hash_set` also says where the table is from then on; it is
  -- taken to be where it was, since the code does not store that in the worker's context.
  pub hash_get-set :
      (t : T) (k : ℕ) (v : EntryRef) (j : ℕ)
      → hash_get (hash_set t k v) j ≡ (if k == j then some v else hash_get t j)
  -- `pool_get`: the index of a free element, or the NULL that the code tests for; where VPP stops the
  -- process for a full pool instead, nothing happens from then on.
  pub pool_get : (ℕ → Option Flow) → Option ℕ
  pub pool_get-free : (flows : ℕ → Option Flow) (i : ℕ) → pool_get flows ≡ some i → flows i ≡ none
  pub pool_get-lt : (flows : ℕ → Option Flow) (i : ℕ) → pool_get flows ≡ some i → i < unset32
  -- The 64-bit words of a key in memory, and the hash of one.
  pub key_words : FlowKey → List ℕ
  pub clib_xxhash : ℕ → ℕ
  -- wheel, user id, timer id, ticks; the handle of the timer
  pub tw_timer_start : W → ℕ → ℕ → ℕ → ℕ × W
  -- wheel, handle, ticks; for any handle, also of a timer that the wheel no longer holds
  pub tw_timer_update : W → ℕ → ℕ → W
  pub tw_timer_stop : W → ℕ → W
  -- wheel, time; the handles of the timers that have expired, each with its user and timer id
  pub tw_timer_expire_timers : W → ℕ → List ℕ × W
  -- `pool_is_free_index` of the interfaces, the type of the super interface, its output node
  pub is_free_sw_interface : ℕ → Bool
  pub is_hardware_interface : ℕ → Bool
  pub output_node_index : ℕ → ℕ
  -- Does `vlib_buffer_alloc` give a buffer, after these packets were sent?
  pub vlib_buffer_alloc : List Sent → Bool
