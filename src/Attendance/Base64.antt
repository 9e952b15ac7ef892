-- ===== src/Attendance/Base64.antt =====
-- The text half of `_base64url` and `_pad_base64` of services/attendance_qr_service.py: base64 without
-- its padding, and the padding again.
pub mod Laws
use Prim.Native.Char.{Char, code}
use enactspace.Shared.{
  ℕ, zero, suc, ◌+◌, ◌-◌, ◌%◌, String, Bool, true, false, ◌&&◌, ◌==◌, if◌then◌else◌,
}

abbrev pub is_equals : Char → Bool
is_equals c = code c == code "="

abbrev pub is_empty_text : String → Bool
is_empty_text String.[] = true
is_empty_text (String.◌∷◌ c s) = false

-- `text.rstrip("=")`
unfoldable pub rstrip_equals : String → String
rstrip_equals String.[] = String.[]
rstrip_equals (String.◌∷◌ c s) =
    let rest = rstrip_equals s in
    if is_equals c && is_empty_text rest then String.[] else String.◌∷◌ c rest

unfoldable pub append_text : String → String → String
append_text String.[] t = t
append_text (String.◌∷◌ c s) t = String.◌∷◌ c (append_text s t)

-- `"=" * n`
unfoldable pub equals_text : ℕ → String
equals_text zero = String.[]
equals_text (suc n) = String.◌∷◌ "=" (equals_text n)

-- `len(text)`
unfoldable pub text_length : String → ℕ
text_length String.[] = 0
text_length (String.◌∷◌ c s) = text_length s + 1

-- `_pad_base64`, where `-n % 4` is `(4 - n % 4) % 4`
unfoldable pub pad_base64 : String → String
pad_base64 value = append_text value (equals_text ((4 - text_length value % 4) % 4))
