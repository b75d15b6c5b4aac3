-- ===== src/Socket/Binding.antt =====
-- SocketBinding of src/flockwave/connections/socket.py. What the machine's network interfaces are,
-- and what the functions of flockwave.networking and the operating system's sockets say of them, is a
-- record parameter.
use flockwave_conn.Common.Results.{Fallible}
pub use flockwave_conn.Common.Results.{err, ok, ◌>>=◌, or_raise, Result-cases}
use flockwave_conn.Common.{
  ℕ, Text, codes, Bool, false, Option, none, some, List, [], ◌∷◌, if◌then◌else◌,
}

pub data Error : Type 0 where
  connection_error value_error os_error address_not_available runtime_error assertion_error : Error
  no_broadcast_address : Error

abbrev pub Result {ℓ} : Type ℓ → Type ℓ
Result A = Fallible Error A

-- An IP address or host name, and a port.
abbrev pub Address : Type 0
Address = Text × ℕ

-- One entry of what `find_interfaces_in_network` returns: the interface, its address in the network,
-- and the network of the interface where it is known.
pub record Candidate : Type 0 where
  pub interface : Text
  pub address : Text
  pub network : Option Text

-- The functions of flockwave.networking; `none` is their ValueError. `broadcast_of_network` is the
-- broadcast address that the module ipaddress finds for the text of a network.
pub record Network : Type 0 where
  pub address_of_interface : Text → Option Text
  pub broadcast_of_interface : Text → Option Text
  pub interfaces_in_network : Text → List Candidate
  pub broadcast_of_network : Text → Option Text

pub data Mode : Type 0 where
  fixed interface subnet : Mode
  -- any other text that the field `mode` may be given
  unknown : Text → Mode

pub record SocketBinding : Type 0 where
  pub mode : Mode
  pub value : Text
  pub port : ℕ
  pub to_broadcast : Bool

abbrev pub binding_fixed : Text → ℕ → SocketBinding
binding_fixed host port = record { mode = fixed; value = host; port = port; to_broadcast = false }

abbrev pub binding_to_interface : Text → ℕ → SocketBinding
binding_to_interface name port = record {
  mode = interface;
  value = name;
  port = port;
  to_broadcast = false;
}

abbrev pub binding_to_subnet : Text → ℕ → SocketBinding
binding_to_subnet network port = record {
  mode = subnet;
  value = network;
  port = port;
  to_broadcast = false;
}

fixed_address_of : Mode → SocketBinding → Option Address
fixed_address_of fixed b = some (b.value, b.port)
fixed_address_of _ b = none

unfoldable pub fixed_address : SocketBinding → Option Address
unfolding fixed_address_of
fixed_address b = fixed_address_of b.mode b

unfoldable pub bind_to_broadcast : Bool → SocketBinding → SocketBinding
bind_to_broadcast value b = record b { to_broadcast = value }

module _ (net : Network) where
  open net use {
    address_of_interface, broadcast_of_interface, interfaces_in_network, broadcast_of_network,
  }

  broadcast_address_of : Mode → SocketBinding → Result Text
  broadcast_address_of fixed b = ok (codes "255.255.255.255")
  broadcast_address_of interface b = or_raise (broadcast_of_interface b.value) value_error
  broadcast_address_of subnet b = or_raise (broadcast_of_network b.value) value_error
  broadcast_address_of (unknown _) b = err value_error

  unfoldable pub get_broadcast_address : SocketBinding → Result Text
  unfolding broadcast_address_of
  get_broadcast_address b = broadcast_address_of b.mode b

  -- `ip_network(network) if network else None`; an empty text counts as none
  candidate_network : Option Text → Option Text
  candidate_network none = none
  candidate_network (some []) = none
  candidate_network (some (c ∷ cs)) = some (c ∷ cs)

  candidate_broadcast : Text → Option Text → Result Text
  candidate_broadcast name none = or_raise (broadcast_of_interface name) value_error
  candidate_broadcast name (some network) = or_raise (broadcast_of_network network) value_error

  -- The first candidate decides.
  resolve_candidates : Bool → List Candidate → Result Text
  unfolding candidate_network candidate_broadcast
  resolve_candidates to_broadcast [] = err connection_error
  resolve_candidates to_broadcast (c ∷ cs) =
      if to_broadcast
      then candidate_broadcast c.interface (candidate_network c.network)
      else ok c.address

  resolve_mode : Mode → SocketBinding → Result Text
  unfolding resolve_candidates
  resolve_mode fixed b = ok b.value
  resolve_mode interface b =
      or_raise
        (if b.to_broadcast then broadcast_of_interface b.value else address_of_interface b.value)
        connection_error
  resolve_mode subnet b = resolve_candidates b.to_broadcast (interfaces_in_network b.value)
  resolve_mode (unknown _) b = err value_error

  unfoldable pub resolve_address : SocketBinding → Result Text
  unfolding resolve_mode
  resolve_address b = resolve_mode b.mode b

  unfoldable pub resolve : SocketBinding → Result Address
  resolve b = do address ← resolve_address b; ok (address, b.port)
