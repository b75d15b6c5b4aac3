-- ===== src/Serial/Match.antt =====
-- `_port_info_matches` and `_find_matching_usb_device` of SerialPortConnection
-- (src/flockwave/connections/serial.py). `int(text, 16)`, `str.lower` and `fnmatch` are a record
-- parameter, and the list of ports is that of pySerial's `comports`.
use flockwave_conn.Common.{
  ℕ, Text, Bool, true, false, not, ◌||◌, Option, none, some, List, [], ◌∷◌, ◌==◌, if◌then◌else◌,
  text_eq,
}
use flockwave_conn.Common.Results.{Fallible, ok, err}

pub data Error : Type 0 where
  runtime_error value_error : Error
  -- whatever pySerial raises
  foreign : Text → Error

abbrev pub Result {ℓ} : Type ℓ → Type ℓ
Result A = Fallible Error A

pub record Texts : Type 0 where
  -- `none` is the ValueError of `int(text, 16)`
  pub parse_hex : Text → Option ℕ
  pub lower : Text → Text
  pub fnmatch : Text → Text → Bool

pub record PortInfo : Type 0 where
  pub device : Text
  pub vid : Option ℕ
  pub pid : Option ℕ
  pub manufacturer : Option Text
  pub product : Option Text
  pub serial_number : Option Text

pub record UsbProperties : Type 0 where
  pub vid : Option Text
  pub pid : Option Text
  pub manufacturer : Option Text
  pub product : Option Text
  pub serial_number : Option Text

-- `port_info.vid == vid_as_int`, and the like for texts; None is no number and no text.
abbrev pub is_number : Option ℕ → ℕ → Bool
is_number none n = false
is_number (some m) n = m == n

abbrev pub is_text : Option Text → Text → Bool
is_text none t = false
is_text (some s) t = text_eq s t

module _ (texts : Texts) where
  open texts use {parse_hex, lower, fnmatch}

  -- An identifier in hexadecimal: not a number, not wanted, or the number that is wanted.
  pub data Wanted : Type 0 where
    bad any : Wanted
    exactly : ℕ → Wanted

  parsed : Option ℕ → Wanted
  parsed none = bad
  parsed (some n) = exactly n

  unfoldable pub wanted : Option Text → Wanted
  unfolding parsed
  wanted none = any
  wanted (some t) = parsed (parse_hex t)

  unfoldable pub is_bad : Wanted → Bool
  is_bad bad = true
  is_bad _ = false

  -- `vid_as_int is not None and port_info.vid != vid_as_int`
  unfoldable pub differs : Wanted → Option ℕ → Bool
  differs (exactly n) actual = not (is_number actual n)
  differs _ actual = false

  unfoldable pub serial_differs : Option Text → Option Text → Bool
  serial_differs none actual = false
  serial_differs (some t) actual = not (is_text actual t)

  glob_differs : Text → Option Text → Bool
  glob_differs pattern none = true
  glob_differs pattern (some t) = not (fnmatch (lower t) (lower pattern))

  unfoldable pub text_differs : Option Text → Option Text → Bool
  unfolding glob_differs
  text_differs none actual = false
  text_differs (some pattern) actual = glob_differs pattern actual

  unfoldable pub port_info_matches : PortInfo → UsbProperties → Bool
  unfolding wanted is_bad differs serial_differs text_differs
  port_info_matches port usb =
      if is_bad (wanted usb.vid) || is_bad (wanted usb.pid)
      then false
      else if differs (wanted usb.vid) port.vid
      then false
      else if differs (wanted usb.pid) port.pid
      then false
      else if serial_differs usb.serial_number port.serial_number
      then false
      else if text_differs usb.manufacturer port.manufacturer
      then false
      else not (text_differs usb.product port.product)

  unfoldable pub find_matching_usb_device : List PortInfo → UsbProperties → Result Text
  find_matching_usb_device [] usb = err runtime_error
  find_matching_usb_device (port ∷ ports) usb =
      let rest = find_matching_usb_device ports usb in
      if port_info_matches port usb then ok port.device else rest
