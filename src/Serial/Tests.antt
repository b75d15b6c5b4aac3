-- ===== src/Serial/Tests.antt =====
-- Two USB devices, a port on the second, and transfers over a threaded stream.
use flockwave_conn.Common.{codes, ◌≡◌, refl, true, false, none, some, [], ◌∷◌, arith, text_eq}
use flockwave_conn.Common.Results.{ok, err}
use flockwave_conn.Connection.State.{new_connection}
use flockwave_conn.Serial.Match.{
  Texts, PortInfo, UsbProperties, port_info_matches, find_matching_usb_device, foreign,
}
use flockwave_conn.Serial.Find.{Found, find_matching-Found}
use flockwave_conn.Serial.Streams.{
  took, waiting_bytes, ThreadedStream, new_threaded_stream, returned, send_all, receive_some,
}
use flockwave_conn.Serial.Transfer.{send_all_total, IsWithin, receive_some-IsWithin}
use flockwave_conn.Serial.Port.{text_path, StopBits, SerialPort, Platform, stream_path}

-- Only "1234" is a number here, patterns are plain texts, and there are no capital letters.
abbrev texts : Texts
unfolding text_eq
texts = record {
  parse_hex = λ t. elim (text_eq t (codes "1234")) [ true ↦ some 0x1234 | false ↦ none ];
  lower = λ t. t;
  fnmatch = text_eq;
}

abbrev first : PortInfo
first = record {
  device = codes "/dev/ttyUSB0";
  vid = some 1;
  pid = none;
  manufacturer = none;
  product = none;
  serial_number = none;
}

abbrev second : PortInfo
second = record {
  device = codes "/dev/ttyUSB1";
  vid = some 0x1234;
  pid = none;
  manufacturer = some (codes "maker");
  product = none;
  serial_number = none;
}

abbrev wanted_properties : UsbProperties
wanted_properties = record {
  vid = some (codes "1234");
  pid = none;
  manufacturer = some (codes "maker");
  product = none;
  serial_number = none;
}

second_found :
    find_matching_usb_device texts (first ∷ second ∷ []) wanted_properties
    ≡ ok (codes "/dev/ttyUSB1")
unfolding find_matching_usb_device port_info_matches text_eq
second_found = refl

find_matching-Found_example :
    Found texts
      (first ∷ second ∷ [])
      wanted_properties
      (find_matching_usb_device texts (first ∷ second ∷ []) wanted_properties)
find_matching-Found_example = find_matching-Found texts (first ∷ second ∷ []) wanted_properties

abbrev stream : ThreadedStream
stream = new_threaded_stream

send_all_total_example :
    let (r, s') = send_all (took 2 ∷ took 1 ∷ took 9 ∷ []) (codes "abc") stream in
    (r ≡ returned tt) × (s'.output ≡ codes "abc") × (s'.sending.held ≡ false)
send_all_total_example =
    send_all_total (took 2 ∷ took 1 ∷ took 9 ∷ []) (codes "abc") stream refl
      (omega arith, (omega arith, (omega arith, tt))) (omega arith)

receive_some-IsWithin_example :
    IsWithin 2
      (waiting_bytes [] ∷ waiting_bytes (codes "abc") ∷ [])
      (receive_some (some 2) (waiting_bytes [] ∷ waiting_bytes (codes "abc") ∷ []) stream).0
receive_some-IsWithin_example =
    receive_some-IsWithin (some 2) (waiting_bytes [] ∷ waiting_bytes (codes "abc") ∷ []) stream refl
      (omega arith)

-- A platform on which no stream can be created.
abbrev platform : Platform
platform = record {
  texts = texts;
  comports = first ∷ second ∷ [];
  match_usb_ids = λ t. none;
  show_descriptor = λ n. codes "3";
  create_stream = λ p b s. err (foreign (codes "busy"));
  close_stream = ok tt;
}

abbrev port : SerialPort
port = record {
  base = new_connection;
  path = text_path (codes "/dev/ttyS0");
  baud = 115200;
  stopbits = StopBits.one;
  usb_properties = wanted_properties;
  resolved_path = none;
  has_stream = false;
}

path_of_port : stream_path platform port ≡ ok (text_path (codes "/dev/ttyS0"))
unfolding stream_path
path_of_port = refl
