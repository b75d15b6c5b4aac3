-- ===== src/Serial/Port.antt =====
-- SerialPortConnection of src/flockwave/connections/serial.py: `_create_stream`, `_close`, and `open` and
-- `close` around them with no other call in progress. Whether a text is a pair of USB identifiers is the
-- answer of a regular expression, a parameter, as are the ports and what creating and closing a stream
-- gives.
use flockwave_conn.Common.{
  ℕ, zero, suc, Text, codes, Bool, true, false, Option, none, some, List, [], ◌∷◌, ◌++◌, ◌≡◌, refl,
  ◌∙◌, ap, if◌then◌else◌,
}
use flockwave_conn.Common.Results.{ok, err, ◌>>=◌}
use flockwave_conn.Connection.State.{
  ConnectionState, disconnected, connecting, connected, disconnecting, Connection, set_state,
}
use flockwave_conn.Connection.Signals.{state-set_state}
use flockwave_conn.Serial.Match.{
  Error, value_error, Result, Texts, PortInfo, UsbProperties, find_matching_usb_device,
}

-- The argument `path`: a text, or a file descriptor.
pub data PathArgument : Type 0 where
  text_path : Text → PathArgument
  descriptor_path : ℕ → PathArgument

-- The argument `stopbits`: 1, 1.5, 2, or another number.
pub data StopBits : Type 0 where
  one one_and_a_half two other : StopBits

pub record SerialPort : Type 0 where
  pub base : Connection
  pub path : PathArgument
  pub baud : ℕ
  pub stopbits : StopBits
  pub usb_properties : UsbProperties
  pub resolved_path : Option Text
  pub has_stream : Bool

-- What the rest of the system answers.
pub record Platform : Type 0 where
  pub texts : Texts
  pub comports : List PortInfo
  -- the two groups of the expression for a pair of USB identifiers, if it matches
  pub match_usb_ids : Text → Option (Text × Text)
  pub show_descriptor : ℕ → Text
  pub create_stream : PathArgument → ℕ → StopBits → Result (Unit {0})
  pub close_stream : Result (Unit {0})

abbrev pub Called : Type 0
Called = Result (Unit {0}) × SerialPort

module _ (platform : Platform) where
  open platform use {texts, comports, match_usb_ids, show_descriptor, create_stream, close_stream}

  find_path : UsbProperties → Result PathArgument
  find_path usb = do device ← find_matching_usb_device texts comports usb; ok (text_path device)

  path_for_ids : Option (Text × Text) → Text → UsbProperties → Result PathArgument
  unfolding find_path
  path_for_ids none path usb = ok (text_path path)
  path_for_ids (some (vid, pid)) path usb =
      find_path (record usb { vid = some vid; pid = some pid })

  -- `if self._path`: an empty text and the descriptor 0 count as no path. The text of a descriptor is
  -- no pair of identifiers.
  unfoldable pub choose_path : PathArgument → UsbProperties → Result PathArgument
  unfolding find_path path_for_ids
  choose_path (text_path []) usb = find_path usb
  choose_path (text_path (c ∷ path)) usb = path_for_ids (match_usb_ids (c ∷ path)) (c ∷ path) usb
  choose_path (descriptor_path zero) usb = find_path usb
  choose_path (descriptor_path (suc n)) usb = ok (descriptor_path (suc n))

  check_stopbits : StopBits → Result (Unit {0})
  check_stopbits other = err value_error
  check_stopbits _ = ok tt

  -- `f"<fd: #{path}>"` or `str(path)`
  pub resolved : PathArgument → Text
  resolved (text_path t) = t
  resolved (descriptor_path n) = codes "<fd: #" ++ (show_descriptor n ++ codes ">")

  -- The path of the stream, once the stop bits are checked.
  unfoldable pub stream_path : SerialPort → Result PathArgument
  unfolding choose_path check_stopbits
  stream_path p = do
    path ← choose_path p.path p.usb_properties
    valid ← check_stopbits p.stopbits
    ok path

  create_on : Result PathArgument → SerialPort → Called
  unfolding resolved
  create_on (err e) p = (err e, p)
  create_on (ok path) p =
      (create_stream path p.baud p.stopbits, record p { resolved_path = some (resolved path) })

  -- `_open` of StreamConnectionBase, with `_create_stream`.
  unfoldable pub open_hook : SerialPort → Called
  unfolding stream_path create_on
  open_hook p = create_on (stream_path p) p

  finish_open : Called → Called
  finish_open (ok _, p) = (ok tt, record p { has_stream = true; base = set_state connected p.base })
  finish_open (err e, p) = (err e, record p { base = set_state disconnected p.base })

  open_from : ConnectionState → SerialPort → Called
  open_from disconnected p =
      finish_open (open_hook (record p { base = set_state connecting p.base }))
  open_from _ p = (ok tt, p)

  unfoldable pub open_port : SerialPort → Called
  unfolding open_from finish_open open_hook
  open_port p = open_from p.base.state p

  -- `_close`: the `finally` blocks forget the stream and the path.
  unfoldable pub close_hook : SerialPort → Called
  close_hook p = (
    if p.has_stream then close_stream else ok tt,
    record p { has_stream = false; resolved_path = none },
  )

  finish_close : Called → Called
  finish_close (ok _, p) = (ok tt, record p { base = set_state disconnected p.base })
  finish_close (err e, p) = (err e, record p { base = set_state connected p.base })

  close_from : ConnectionState → SerialPort → Called
  close_from connected p =
      finish_close (close_hook (record p { base = set_state disconnecting p.base }))
  close_from _ p = (ok tt, p)

  unfoldable pub close : SerialPort → Called
  unfolding close_from finish_close close_hook
  close p = close_from p.base.state p

  created :
      (p : SerialPort) (path : PathArgument)
      → stream_path p ≡ ok path
      → open_hook p
        ≡ (create_stream path p.baud p.stopbits, record p { resolved_path = some (resolved path) })
  unfolding open_hook
  created p path found = rw (found, create_on)

  stream_path-begun :
      (p : SerialPort) (c : Connection) → stream_path (record p { base = c }) ≡ stream_path p
  unfolding stream_path
  stream_path-begun p c = refl

  finish_open_raised :
      (r : Called) (e : Error)
      → r.0 ≡ err e
      → ((finish_open r).0 ≡ err e)
        × ((finish_open r).1.base.state ≡ disconnected)
        × ((finish_open r).1.has_stream ≡ r.1.has_stream)
        × ((finish_open r).1.resolved_path ≡ r.1.resolved_path)
  unfolding finish_open
  finish_open_raised (err x, p) e same = (same, state-set_state disconnected p.base, refl, refl)
  finish_open_raised (ok v, p) e same = cc

  open_from_disconnected :
      (s : ConnectionState) (p : SerialPort)
      → s ≡ disconnected
      → open_from s p ≡ finish_open (open_hook (record p { base = set_state connecting p.base }))
  unfolding open_from
  open_from_disconnected disconnected p e = refl
  open_from_disconnected connected p e = cc
  open_from_disconnected connecting p e = cc
  open_from_disconnected disconnecting p e = cc

  -- When the stream of a port that was found cannot be created, `open` raises and the connection is
  -- disconnected with no stream, and yet its address is the path of that port.
  open_port_keeps_address :
      (p : SerialPort) (path : PathArgument) (e : Error)
      → p.base.state ≡ disconnected
      → p.has_stream ≡ false
      → stream_path p ≡ ok path
      → create_stream path p.baud p.stopbits ≡ err e
      → let (r, p') = open_port p in
        (r ≡ err e)
        × (p'.base.state ≡ disconnected)
        × (p'.has_stream ≡ false)
        × (p'.resolved_path ≡ some (resolved path))
  unfolding open_port
  open_port_keeps_address p path e down no_stream found fails =
      let begun : SerialPort = record p { base = set_state connecting p.base } in
      let hook = created begun path (stream_path-begun p (set_state connecting p.base) ∙ found) in
      let (r, state, stream, address) =
        finish_open_raised (open_hook begun) e (ap (λ (c : Called). c.0) hook ∙ fails) in
      rw (open_from_disconnected p.base.state p down) (
        r,
        state,
        stream ∙ ap (λ (c : Called). c.1.has_stream) hook ∙ no_stream,
        address ∙ ap (λ (c : Called). c.1.resolved_path) hook,
      )
