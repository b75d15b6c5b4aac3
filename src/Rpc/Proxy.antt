-- ===== src/Rpc/Proxy.antt =====
-- RPCRemoteProxy and RPCRemotePeer of src/flockwave/channels/rpc.py. A sender is called with the name of a
-- method, the arguments, of type `A`, and whether the call is one-way.
use flockwave_conn.Common.{Text, Bool, true, false, Option, none, some, []}
use flockwave_conn.Common.Dict.{Dict, lookup, insert}

module _ (A R : Type 0) where
  abbrev pub Sender : Type 0
  Sender = Text → Bool → A → R

  pub record Method : Type 0 where
    pub name : Text
    pub sender : Sender
    pub one_way : Bool

  unfoldable pub call_method : Method → A → R
  call_method m args = m.sender m.name m.one_way args

  pub record Proxy : Type 0 where
    pub methods : Dict Method
    pub sender : Sender
    pub one_way : Bool

  unfoldable pub new_proxy : Sender → Bool → Proxy
  new_proxy sender one_way = record { methods = []; sender = sender; one_way = one_way }

  get_known : Option Method → Text → Proxy → Method × Proxy
  get_known (some m) name p = (m, p)
  get_known none name p =
      let m : Method = record { name = name; sender = p.sender; one_way = p.one_way } in
      (m, record p { methods = insert name m p.methods })

  -- `__getattr__`
  unfoldable pub get_method : Text → Proxy → Method × Proxy
  unfolding get_known
  get_method name p = get_known (lookup name p.methods) name p

  pub record Peer : Type 0 where
    pub notify : Proxy
    pub request : Proxy

  unfoldable pub new_peer : Sender → Peer
  new_peer sender = record { notify = new_proxy sender true; request = new_proxy sender false }
