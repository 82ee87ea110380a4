-- ===== src/Enttec/UsbPro/Receive.antt =====
-- FTDI_ReceiveData and FTDI_RxDMX: one packet from the PRO.
use dmx_enttec_node.Prelude.{
  ℕ, zero, suc, ◌+◌, ◌-◌, ◌*◌, List, [], ◌∷◌, Bool, true, false, not, length, get_or, overwrite,
  ltb, ◌==◌, if◌then◌else◌, Option, none, some, memcpy, ℤ, pos, negsuc,
}
use dmx_enttec_node.Enttec.UsbPro.Driver.{Driver, ft_ok}
use dmx_enttec_node.Enttec.UsbPro.Send.{dmx_start_code, dmx_end_code}

abbrev pub dmx_packet_size : ℕ
dmx_packet_size = 512

-- `char buffer[600]`
abbrev pub buffer_size : ℕ
buffer_size = 600

-- A `char` is signed on the program's platform: this is the `int` that it is compared as.
abbrev pub char_value : ℕ → ℤ
char_value b = if ltb b 128 then pos b else negsuc (255 - b)

abbrev pub int_eq : ℤ → ℕ → Bool
int_eq (pos n) k = n == k
int_eq (negsuc n) k = false

-- How a part of a receiving function ends: it goes on with a value, the function returns
-- NO_RESPONSE, an access leaves an array, or the fuel of a loop is used up.
pub data Read {ℓ} (D : Type 0) (A : Type ℓ) : Type ℓ where
  got : A → D → Read D A
  no_response : D → Read D A
  fault : Read D A
  out_of_fuel : Read D A

module _ (v : Driver) where
  open v use {Device, ft_read}

  abbrev pub M : Type 0 → Type 0
  M A = Device → Read Device A

  infixl 5 ◌>>=◌ ◌>>◌
  abbrev pub ◌>>=◌ : {A B : Type 0} → M A → (A → M B) → M B
  ◌>>=◌ m f d = elim (m d) [
    | got a d' ↦ f a d'
    | no_response d' ↦ no_response d'
    | fault ↦ fault
    | out_of_fuel ↦ out_of_fuel
  ]

  abbrev pub ◌>>◌ : {B : Type 0} → M (Unit {0}) → M B → M B
  m >> k = m >>= λ _. k

  abbrev pub return : {A : Type 0} → A → M A
  return a d = got a d

  -- `if (test) return NO_RESPONSE;`
  abbrev pub refuse_if : Bool → M (Unit {0})
  refuse_if true d = no_response d
  refuse_if false d = got tt d

  abbrev pub or_fault : {A : Type 0} → Option A → M A
  or_fault none d = fault
  or_fault (some a) d = got a d

  module _ (h : ℕ) where
    -- `FT_Read(device_handle, p, n, &bytes_read)`
    abbrev pub read : ℕ → M (ℕ × List ℕ)
    read n d = let (res, bytes, d') = ft_read h n d in got (res, bytes) d'

    -- One byte, with `if (bytes_read == NO_RESPONSE) return NO_RESPONSE;` after it.
    abbrev pub first : ℕ × List ℕ → M ℕ
    first (_, []) d = no_response d
    first (_, b ∷ _) d = got b d

    abbrev pub read_byte : M ℕ
    read_byte = read 1 >>= first

    -- The inner loop: `while (byte != DMX_START_CODE)`.
    unfoldable pub seek_start : ℕ → ℕ → M ℕ
    seek_start zero byte d = out_of_fuel
    seek_start (suc fuel) byte d = elim (byte == dmx_start_code) [
      | true ↦ got byte d
      | false ↦ (read_byte >>= seek_start fuel) d
    ]

    -- The outer loop: `while (byte != label)`.
    unfoldable pub seek_label : ℕ → ℕ → ℕ → M (Unit {0})
    seek_label zero label byte d = out_of_fuel
    seek_label (suc fuel) label byte d = elim (byte == label) [
      | true ↦ got tt d
      | false ↦ ((seek_start (suc fuel) byte >>= λ _. read_byte) >>= seek_label fuel label) d
    ]

    -- The payload, once the header has been read.
    unfoldable pub receive_body : List ℕ → List ℕ → ℕ → ℕ → M (List ℕ)
    receive_body garbage data' expected len = do
      refuse_if (ltb dmx_packet_size len)
      (_, body) ← read len
      refuse_if (not (length body == len))
      end ← read_byte
      refuse_if (not (end == dmx_end_code))
      or_fault (memcpy data' 0 (overwrite garbage 0 body) 0 expected)

    -- The result is what `data` holds after a return of TRUE. `garbage` is what `buffer` holds at
    -- first. The second length byte is checked by the status alone, so without a byte it is the
    -- first one again.
    unfoldable pub receive_data : ℕ → List ℕ → ℕ → List ℕ → ℕ → M (List ℕ)
    receive_data fuel garbage label data' expected = do
      seek_label fuel label 0
      lo ← read_byte
      (res, bytes) ← read 1
      refuse_if (not (res == ft_ok))
      receive_body garbage data' expected (lo + 256 * get_or bytes 0 lo)

    -- From the block of `len` bytes on
    unfoldable pub rx_block : List ℕ → List ℕ → ℕ → ℕ → M (List ℕ)
    rx_block garbage data' expected len = do
      (_, body) ← read len
      refuse_if (not (length body == len))
      let buffer = overwrite garbage 0 body
      refuse_if (not (int_eq (char_value (get_or buffer (len - 1) 0)) dmx_end_code))
      or_fault (memcpy data' 0 buffer 0 expected)

    -- From the header on
    unfoldable pub rx_packet : List ℕ → List ℕ → ℕ → List ℕ → ℕ → M (List ℕ)
    unfolding rx_block
    rx_packet garbage stale label data' expected = do
      (_, bytes) ← read 3
      refuse_if (length bytes == 0)
      let header = overwrite stale 0 bytes
      refuse_if (not (get_or header 0 0 == label))
      let len = get_or header 1 0 + 256 * get_or header 2 0 + 1
      refuse_if (ltb (dmx_packet_size + 2) len)
      rx_block garbage data' expected len

    -- `garbage` is what `buffer` holds at first, and `stale` what `header` does.
    unfoldable pub rx_dmx : ℕ → List ℕ → List ℕ → ℕ → List ℕ → ℕ → M (List ℕ)
    unfolding rx_packet
    rx_dmx fuel garbage stale label data' expected = do
      _ ← seek_start fuel 0
      rx_packet garbage stale label data' expected
