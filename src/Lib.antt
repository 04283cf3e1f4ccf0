-- ===== src/Lib.antt =====
-- Verification library of the VPP plugins in this repository: flow_table, link_pulse and cpu_loading.
--
-- The flow_table plugin follows TCP connections. Its hooks are called by nodes of VPP's feature arcs
-- for each packet: flow_table/core/ip4_process.c parses the packet, looks its key up in the worker's
-- hash table, makes a flow or finds one, and calls the handler of the packet's protocol, which moves
-- the state machine of the flow and its timer. When a connection that was seen from its SYN on is
-- established, flow_table/core/proto/tcp_control.h builds and sends a reset. The link_pulse plugin
-- keeps a list of scripts and runs them when a link changes. The cpu_loading plugin counts the time
-- of each dispatched node and of the empty polls.
--
-- The modules and the code:
--   Base        shared names, Boolean tests on the native numbers, lists
--   Tcp         flow_table/core/proto/tcp_state_transfer.h: the enumerations, the table of transfers
--               row by row, the map from flags to events; Transfers, Events and Runs hold the theorems, and
--               Diagram compares the table with flow_table/docs/tcp_state_transfer.svg
--   Checksum    flow_table/core/proto/tcp_control.h, the three checksums (Defs), the Internet checksum
--               of RFC 1071 that they are compared with (Reference)
--   Flow        flow_table/core/include/flow.h and timer.h, flow_table/core/flow.c and timer.c. Types has
--               the data, Vpp what is called of VPP, Defs the functions, Init the pools of the threads
--   Buffer      a vlib_buffer_t with the flow's index in it, and what is parsed of it:
--               parse_vlan_tags, ip4_pre_process, the flow key
--   Reset       tcp_send_reset: the packet's bytes (Frame), the guards and the loop (Send),
--               and how the plugin itself would read the packet (Received)
--   Protocol    flow_table/core/protocol.c and the handlers of flow_table/core/proto
--   Ip4         flow_table/core/ip4_process.c: the hooks (Process), the invariant (Valid, Input, Arrive),
--               the ways in which a context changes (Change) and what stays of its flows (Keeps, All,
--               Shown, Mirror), each hook (Safety, Output, Sends), conversations (First, Reply, Crossed,
--               Shared, Handshake, Rounds, Established), the contexts that packets and timers lead to
--               (Reach), what their hash table leads to and which flow a packet gets there (Indexed,
--               Matched), what was sent and by which step (Resets), runs of a worker (Run) and of all
--               workers (Workers), the hook lists that flow_table/core/init.c registers, with the
--               hooks of flow_table/core/ip6_process.c (Start, Hooks), and frames of packets on a
--               hook node (Frame)
--   Tracker     an abstract connection tracker (Spec), how a worker is seen as one (View, Packets), and
--               the hooks (Refines, Outward), runs of them (Simulates) and frames of packets (Frames)
--               beside it; one connection among others (Tracked, Stays, Follows, Ready) and one flow
--               of a worker among others (Isolated), with its own packets (Own)
--   Display     the command that shows the flows: flow_table_display_command_fn of
--               flow_table/core/flow.c (Command), the format functions of flow_table/core/proto (Format)
--               and what they show of a flow (Described)
--   Filter      flow_table/vnetfilter/hook.c and node.c: the loops over hooks (Hook) and over packets
--               (Node, Stolen), the node function and the next nodes (Graph), and the command of
--               flow_table/vnetfilter/cli.c (Command, Words)
--   LinkPulse   link_pulse/link_pulse.c, and the set of paths that its list is seen as (PathSet)
--   CpuLoading  cpu_loading/cpu_loading.c and cpu_loading.h (Defs, Process),
--               cpu_loading/cpu_loading_cli.c (Command)
--   Tests       a concrete VPP and packets, on which each theorem is applied
--
-- The state of a worker is WrkCtx: its pool of flows (a free element is none), its hash table, its
-- timer wheel and the packets that it sent. A pointer to a flow is the flow's index, and a pointer to
-- one of its two entries is the index with a direction. A hook takes a context and a buffer and
-- returns them changed; none is a fault, that is a call of a NULL function or a read through a NULL
-- pointer. The hash table, the pool's choice of a slot, the timer wheel, the hash of a word, the
-- interfaces and the allocation of buffers belong to VPP: they are the record Flow.Vpp, whose laws
-- are that a key of the table holds what was last set, and that a slot that is handed out is free and
-- below ~0. hash_set is also taken to leave the table where it is: the code keeps the new place of a
-- table that VPP moves in a local variable only. A full pool gives none, the NULL that the code tests
-- for; where VPP stops the process there instead, a run ends at that point. The timer wheel takes an
-- update of any handle, also of one whose timer has expired. unformat and fork are arguments in the
-- same way, and so are the next node of a feature arc, the trace flag of a buffer
-- (Filter.Node.Buffers) and the switch of a feature on an interface (Filter.Command.Features). The
-- threads of VPP interleave as a list of steps, each of which is one packet or one call of the timer
-- node on one thread.
--
-- Bounds: sums of a checksum wrap at 2^32, clocks and counters of cpu_loading at 2^64, and fields of
-- a packet are lists of bytes, network order written out; the host is little-endian, as the code's
-- u16 loads on the platforms of VPP. The loop that folds a sum has fuel 2, which is enough for every
-- u32. All other loops are recursion on a list or on a count.
--
-- Not modelled: the text that a format string makes of its arguments (a printed line is a constructor
-- with its arguments), floats (a parameter), vnetfilter_init and link_pulse_init, which store
-- pointers and register a log, the registration of nodes and commands with VPP, prefetching, and
-- debugging output.
pub mod Base
pub mod Tcp
pub mod Checksum
pub mod Flow
pub mod Buffer
pub mod Reset
pub mod Protocol
pub mod Ip4
pub mod Filter
pub mod LinkPulse
pub mod CpuLoading
pub mod Display
pub mod Tracker
pub mod Tests
