-- ===== src/Ip4/Shown.antt =====
-- What `show flow-table` of flow_table/core/flow.c relies on: the flows that are counted as used.
use vpp_plugins.Ip4.All.{All, Closed}
use vpp_plugins.Flow.Types.{Flow}
use vpp_plugins.Flow.Defs.{WrkCtx, flow_table_update_flow}
use vpp_plugins.Ip4.Process.{first_flow}
use vpp_plugins.Base.{◌≡◌, ◌<◌, arith}

-- A flow that the command shows: it is counted as used, and its protocol has a handler.
pub record IsShown (f : Flow) : Type 0 where
  pub used : f.refcount ≡ 1
  pub protocol_lt : f.protocol < 255

abbrev pub AllShown : {T W : Type 0} → WrkCtx T W → Type 0
AllShown = All IsShown

pub IsShown-Closed : Closed IsShown
unfolding flow_table_update_flow first_flow
IsShown-Closed = record {
  path = λ f g p s. record {
    used = rw (p.refcount) (s.used);
    protocol_lt = rw (p.protocol) (s.protocol_lt);
  };
  opened = λ i h b lt. ground arith;
  answered = λ i f s. record { used = s.used; protocol_lt = s.protocol_lt };
}
