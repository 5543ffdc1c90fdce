-- ===== src/TlsProxy/Serial.antt =====
-- Certificate serials as text: `normalizeSerialHex` of tls-proxy/crl.go, and `(*big.Int).Text(16)`
-- of the standard library, which the proxy feeds to it. A serial is a natural number.
pub mod Text16
pub mod Canonical
use ai_scan_interceptor.Base.{
  ℕ, zero, suc, ◌+◌, ◌-◌, ◌/◌, ◌%◌, Bool, ◌&&◌, ◌||◌, [], ◌∷◌, ltb, leb, ◌==◌, if◌then◌else◌, Bytes,
  codes, same, length, all,
}
use ai_scan_interceptor.Strings.{trim_space, trim_prefix, without_byte, trim_left_byte, to_lower}

hex_digit : ℕ → ℕ
hex_digit d = if ltb d 10 then b'0' + d else b'a' + (d - 10)

-- the digits of `n` before `acc`; the fuel `n` is enough, as each round divides `n` by 16
digits16 : ℕ → ℕ → Bytes → Bytes
unfolding hex_digit
digits16 zero n acc = acc
digits16 (suc f) n acc =
    let rest = digits16 f (n / 16) (hex_digit (n % 16) ∷ acc) in if n == 0 then acc else rest

-- serial.Text(16)
unfoldable pub text16 : ℕ → Bytes
unfolding digits16
text16 n = if n == 0 then codes "0" else digits16 n n []

is_hex : ℕ → Bool
is_hex c = (leb b'0' c && leb c b'9') || (leb b'a' c && leb c b'f') || (leb b'A' c && leb c b'F')

-- `padEvenLen`
pad_even_len : Bytes → Bytes
pad_even_len s = if length s % 2 == 0 then s else b'0' ∷ s

-- `hex.DecodeString` succeeds
hex_decodes : Bytes → Bool
unfolding is_hex
hex_decodes s = length s % 2 == 0 && all is_hex s

strip_separators : Bytes → Bytes
strip_separators s = without_byte b' ' (
    without_byte b'-'
      (without_byte b':' (trim_prefix (trim_prefix (trim_space s) (codes "0x")) (codes "0X"))))

strip_zeros : Bytes → Bytes
strip_zeros s =
    let stripped = trim_left_byte b'0' s in if same stripped [] then codes "0" else stripped

-- `normalizeSerialHex`
unfoldable pub normalize_serial_hex : (Bytes → Bytes) → Bytes → Bytes
unfolding strip_separators strip_zeros pad_even_len hex_decodes
normalize_serial_hex lower_runes s =
    let t = strip_separators s in
    if same t []
    then []
    else if hex_decodes (pad_even_len t)
    then strip_zeros (to_lower lower_runes t)
    else []
