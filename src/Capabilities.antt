-- ===== src/Capabilities.antt =====
-- get_connection_capabilities of src/flockwave/connections/capabilities.py. A connection is given by
-- its class: the base classes that it has, and its own method `_get_capabilities` if it has one.
use flockwave_conn.Common.{Bool, Option, none, some}

pub record Capabilities : Type 0 where
  pub can_broadcast : Bool
  pub can_receive : Bool
  pub can_send : Bool

pub record ConnectionClass : Type 0 where
  pub own_capabilities : Option Capabilities
  pub is_broadcast_connection : Bool
  pub is_readable_connection : Bool
  pub is_writable_connection : Bool

inferred_capabilities : ConnectionClass → Option Capabilities → Capabilities
inferred_capabilities c (some own) = own
inferred_capabilities c none = record {
  can_broadcast = c.is_broadcast_connection;
  can_receive = c.is_readable_connection;
  can_send = c.is_writable_connection;
}

unfoldable pub get_connection_capabilities : ConnectionClass → Capabilities
unfolding inferred_capabilities
get_connection_capabilities c = inferred_capabilities c c.own_capabilities
