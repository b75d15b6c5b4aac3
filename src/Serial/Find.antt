-- ===== src/Serial/Find.antt =====
-- Which device `_find_matching_usb_device` finds.
use flockwave_conn.Common.{
  ℕ, Text, ◌≡◌, refl, ap, ◌↔◌, inl, inr, Bool, true, false, not, ◌||◌, Option, none, some, List, [],
  ◌∷◌, ◌++◌, arith, text_eq_iff, All, if◌then◌else◌, Bool-cases, Option-cases,
}
use flockwave_conn.Common.Results.{ok, err}
use flockwave_conn.Serial.Match.{
  Texts, PortInfo, UsbProperties, wanted, is_bad, differs, serial_differs, text_differs, is_number,
  port_info_matches, find_matching_usb_device, runtime_error, Result,
}

-- What the chain of tests comes to.
tests_iff :
    (b b' d d' s m p : Bool)
    → ((if b || b'
          then false
          else if d
          then false
          else if d'
          then false
          else if s
          then false
          else if m
          then false
          else not p)
        ≡ true)
      ↔ (((b || d) ≡ false) × ((b' || d') ≡ false) × (s ≡ false) × (m ≡ false) × (p ≡ false))
tests_iff b b' d d' s m p = ground arith

module _ (texts : Texts) where
  open texts use {parse_hex, lower, fnmatch}

  -- A property that is not given puts no condition; one that is given puts the one of the second
  -- argument on the value that the port has.
  abbrev pub Given : {A : Type 0} → Option Text → (Text → A → Type 0) → Option A → Type 0
  Given none P actual = Unit
  Given (some t) P none = ⊥
  Given (some t) P (some a) = P t a

  abbrev pub IsHexOf : Text → ℕ → Type 0
  IsHexOf t n = parse_hex t ≡ some n

  abbrev pub FitsGlob : Text → Text → Type 0
  FitsGlob pattern t = fnmatch (lower t) (lower pattern) ≡ true

  -- The port has every property that is given.
  pub record Fits (port : PortInfo) (usb : UsbProperties) : Type 0 where
    pub vid : Given usb.vid IsHexOf port.vid
    pub pid : Given usb.pid IsHexOf port.pid
    pub serial_number : Given usb.serial_number (λ t a. a ≡ t) port.serial_number
    pub manufacturer : Given usb.manufacturer FitsGlob port.manufacturer
    pub product : Given usb.product FitsGlob port.product

  hex_iff :
      (t : Option Text) (a : Option ℕ)
      → ((is_bad texts (wanted texts t) || differs texts (wanted texts t) a) ≡ false)
        ↔ Given t IsHexOf a
  unfolding wanted is_bad differs
  hex_iff none a = (λ h. tt, λ h. refl)
  hex_iff (some t) a = elim (Option-cases (parse_hex t)) [
    | inl bad_text ↦ rw bad_text (λ h. cc, λ h. absurd (no_hex t a bad_text h))
    | inr (n, e) ↦ rw e (hex_parsed t n a e)
  ]
    where
      no_hex : (t : Text) (a : Option ℕ) → parse_hex t ≡ none → ¬ Given (some t) IsHexOf a
      no_hex t none e h = h
      no_hex t (some m) e h = cc

      hex_parsed :
          (t : Text) (n : ℕ) (a : Option ℕ)
          → parse_hex t ≡ some n
          → (not (is_number a n) ≡ false) ↔ Given (some t) IsHexOf a
      hex_parsed t n none e = (λ h. cc, λ h. absurd h)
      hex_parsed t n (some m) e = ground (arith, e)

  serial_iff : (t a : Option Text) → (serial_differs texts t a ≡ false) ↔ Given t (λ u v. v ≡ u) a
  unfolding serial_differs
  serial_iff none a = (λ h. tt, λ h. refl)
  serial_iff (some t) none = (λ h. cc, λ h. absurd h)
  serial_iff (some t) (some u) = ground (arith, text_eq_iff u t)

  text_iff : (t a : Option Text) → (text_differs texts t a ≡ false) ↔ Given t FitsGlob a
  unfolding text_differs
  text_iff none a = (λ h. tt, λ h. refl)
  text_iff (some t) none = (λ h. cc, λ h. absurd h)
  text_iff (some t) (some u) = ground arith

  port_info_matches_iff :
      (port : PortInfo) (usb : UsbProperties)
      → (port_info_matches texts port usb ≡ true) ↔ Fits port usb
  unfolding port_info_matches
  port_info_matches_iff port usb =
      let (to, from) =
        tests_iff (is_bad texts (wanted texts usb.vid)) (is_bad texts (wanted texts usb.pid))
          (differs texts (wanted texts usb.vid) port.vid)
          (differs texts (wanted texts usb.pid) port.pid)
          (serial_differs texts usb.serial_number port.serial_number)
          (text_differs texts usb.manufacturer port.manufacturer)
          (text_differs texts usb.product port.product) in
      (
        λ h.
            let (v, q, s, m, p) = to h in
            record {
              vid = (hex_iff usb.vid port.vid).0 v;
              pid = (hex_iff usb.pid port.pid).0 q;
              serial_number = (serial_iff usb.serial_number port.serial_number).0 s;
              manufacturer = (text_iff usb.manufacturer port.manufacturer).0 m;
              product = (text_iff usb.product port.product).0 p;
            },
        λ f. from (
          (hex_iff usb.vid port.vid).1 f.vid,
          (hex_iff usb.pid port.pid).1 f.pid,
          (serial_iff usb.serial_number port.serial_number).1 f.serial_number,
          (text_iff usb.manufacturer port.manufacturer).1 f.manufacturer,
          (text_iff usb.product port.product).1 f.product,
        ),
      )

  -- The first port of the list that fits.
  pub record FirstFit (ports : List PortInfo) (usb : UsbProperties) (device : Text) : Type 0 where
    pub before : List PortInfo
    pub port : PortInfo
    pub after : List PortInfo
    pub split : ports ≡ before ++ port ∷ after
    pub none_before : All (λ p. ¬ Fits p usb) before
    pub fits : Fits port usb
    pub its_device : port.device ≡ device

  abbrev pub Found : List PortInfo → UsbProperties → Result Text → Type 0
  Found ports usb (ok device) = FirstFit ports usb device
  Found ports usb (err e) = (e ≡ runtime_error) × All (λ p. ¬ Fits p usb) ports

  later :
      (port : PortInfo) (ports : List PortInfo) (usb : UsbProperties) (r : Result Text)
      → ¬ Fits port usb
      → Found ports usb r
      → Found (port ∷ ports) usb r
  later port ports usb (ok device) no_fit f = record {
    before = port ∷ f.before;
    port = f.port;
    after = f.after;
    split = ap (λ l. port ∷ l) f.split;
    none_before = (no_fit, f.none_before);
    fits = f.fits;
    its_device = f.its_device;
  }
  later port ports usb (err e) no_fit (same, none_fits) = (same, (no_fit, none_fits))

  -- `_find_matching_usb_device` returns the device of the first port in the list that has every
  -- property that is given, identifiers read as hexadecimal numbers, the serial number compared as it
  -- is and the other texts as patterns without regard to case; if no port has them all, it raises a
  -- RuntimeError.
  pub find_matching-Found :
      (ports : List PortInfo) (usb : UsbProperties)
      → Found ports usb (find_matching_usb_device texts ports usb)
  unfolding find_matching_usb_device
  find_matching-Found [] usb = (refl, tt)
  find_matching-Found (port ∷ ports) usb = elim (Bool-cases (port_info_matches texts port usb)) [
    | inl yes_fits ↦ rw yes_fits (record {
      before = [];
      port = port;
      after = ports;
      split = refl;
      none_before = tt;
      fits = (port_info_matches_iff port usb).0 yes_fits;
      its_device = refl;
    })
    | inr differs_somewhere ↦ rw differs_somewhere (
        later port ports usb (find_matching_usb_device texts ports usb)
          (λ f. ground (arith, differs_somewhere, (port_info_matches_iff port usb).1 f))
          (find_matching-Found ports usb))
  ]
