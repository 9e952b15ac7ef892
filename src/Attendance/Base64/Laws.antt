-- ===== src/Attendance/Base64/Laws.antt =====
-- The padding of base64 comes back.
use Prim.Native.Char.{Char, code}
use enactspace.Shared.{
  ℕ, zero, suc, ◌+◌, ◌-◌, ◌%◌, ◌<◌, ◌≡◌, refl, String, Bool, true, false, ◌||◌, ◌==◌, arith,
  Bool-cases, inl, inr, if◌then◌else◌,
}
use enactspace.Attendance.Base64.{
  is_equals, rstrip_equals, append_text, equals_text, text_length, pad_base64,
}

abbrev is_plain_char : Char → Bool
is_plain_char c = if is_equals c || (code c == code ".") then false else true

-- neither a padding nor a dot stands in the text
unfoldable pub is_plain : String → Bool
is_plain String.[] = true
is_plain (String.◌∷◌ c s) = if is_plain_char c then is_plain s else false

-- What base64 says of its texts: letters of its alphabet, then less than four paddings, which fill
-- the length up to a multiple of four.
pub record IsBase64 (s : String) : Type 0 where
  pub letters : String
  pub padding : ℕ
  pub whole : s ≡ append_text letters (equals_text padding)
  pub plain : is_plain letters ≡ true
  pub few : padding < 4
  pub aligned : (text_length letters + padding) % 4 ≡ 0

rstrip_equals_text : (n : ℕ) → rstrip_equals (equals_text n) ≡ String.[]
unfolding rstrip_equals equals_text
rstrip_equals_text zero = refl
rstrip_equals_text (suc n) = rw (rstrip_equals_text n) refl

pub rstrip-append :
    (s : String) (n : ℕ) → is_plain s ≡ true → rstrip_equals (append_text s (equals_text n)) ≡ s
unfolding rstrip_equals append_text is_plain
rstrip-append String.[] n e = rstrip_equals_text n
rstrip-append (String.◌∷◌ c s) n e = elim (Bool-cases (is_equals c)) [
  | inl padded ↦ ground (arith, padded, e)
  | inr letter ↦ elim (Bool-cases (code c == code ".")) [
    | inl dot ↦ ground (arith, letter, dot, e)
    | inr no_dot ↦
        let plain : is_plain s ≡ true = ground (arith, letter, no_dot, e) in
        rw (letter, rstrip-append s n plain) refl
  ]
]

missing : (k n : ℕ) → n < 4 → (k + n) % 4 ≡ 0 → (4 - k % 4) % 4 ≡ n
missing k n few aligned = omega (arith, few, aligned)

-- what the encoder strips, the decoder pads
pub pad-rstrip : (s : String) → IsBase64 s → pad_base64 (rstrip_equals s) ≡ s
unfolding pad_base64
pad-rstrip s h =
    rw (h.whole, rstrip-append h.letters h.padding h.plain)
      (rw (missing (text_length h.letters) h.padding h.few h.aligned) refl)
