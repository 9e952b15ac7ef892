-- ===== src/Attendance/RoundTrip.antt =====
-- The generation and the validation of attendance tokens agree.
use Prim.Native.Char.{Char}
use text.Mathlib.TextEquality.{eq_iff, Char-path}
use enactspace.Shared.{
  ℕ, ◌≡◌, ◌≤◌, refl, ap, ◌∙◌, List, inl, inr, String, Bool, true, false, Option, none, some, arith,
  str_eq, ltb, if◌then◌else◌, Bool-cases, Option-cases,
}
use enactspace.Attendance.QrToken.{
  AttendanceQrPayload, Validation, valid, invalid_token, expired_token, QrEnv, token_version,
  is_dot, join_dot, split_dot, to_public_dict, value_of, payload_of, check_payload,
  generate_attendance_qr_token, validate_attendance_qr_token, sign, base64url, base64url_json,
  decode_base64url_json,
}
use enactspace.Attendance.Base64.Laws.{is_plain, IsBase64, rstrip-append, pad-rstrip}

-- whether a dot stands in the text
unfoldable pub has_dot : String → Bool
has_dot String.[] = false
has_dot (String.◌∷◌ c s) = if is_dot c then true else has_dot s

pub split_dot-join_dot : (a b : String) → has_dot a ≡ false → split_dot (join_dot a b) ≡ some (a, b)
unfolding split_dot join_dot has_dot
split_dot-join_dot String.[] b plain = refl
split_dot-join_dot (String.◌∷◌ c a) b plain = elim (Bool-cases (is_dot c)) [
  | inl dot ↦ ground (arith, dot, plain)
  | inr no_dot ↦
      let rest : has_dot a ≡ false = ground (arith, no_dot, plain) in
      rw (no_dot, split_dot-join_dot a b rest) refl
]

-- the text of two parts
abbrev joined : Option (String × String) → String
joined none = String.[]
joined (some r) = join_dot r.0 r.1

-- the parts of a text that is split make it again
join_dot-split_dot :
    (token : String) (r : String × String) → split_dot token ≡ some r → token ≡ join_dot r.0 r.1
unfolding split_dot join_dot
join_dot-split_dot String.[] r e = cc
join_dot-split_dot (String.◌∷◌ c s) r e = elim (Bool-cases (is_dot c)) [
  | inl dot ↦
      let first : c ≡ "." = Char-path c "." (ground (arith, dot)) in
      ap (λ (d : Char). String.◌∷◌ d s) first ∙ ap joined (rw dot at e)
  | inr no_dot ↦ elim (Option-cases (split_dot s)) [
    | inl whole ↦ cc (rw (no_dot, whole) at e)
    | inr (q, parts) ↦
        ap (String.◌∷◌ c) (join_dot-split_dot s q parts) ∙ ap joined (rw (no_dot, parts) at e)
  ]
]

plain-dot : (s : String) → is_plain s ≡ true → has_dot s ≡ false
unfolding is_plain has_dot
plain-dot String.[] e = refl
plain-dot (String.◌∷◌ c s) e = ground (arith, e, plain-dot s)

str_eq_refl : (s : String) → str_eq s s ≡ true
str_eq_refl s = (eq_iff s s).1 refl

abbrev payload_or : AttendanceQrPayload → Validation → AttendanceQrPayload
payload_or d (valid p) = p
payload_or d invalid_token = d
payload_or d expired_token = d

module _ (env : QrEnv) where
  payload_of-to_public_dict :
      (p : AttendanceQrPayload)
      → env.fromisoformat (env.isoformat p.issued_at) ≡ some p.issued_at
      → env.fromisoformat (env.isoformat p.expires_at) ≡ some p.expires_at
      → payload_of env (to_public_dict env p) ≡ some p
  unfolding payload_of to_public_dict value_of
  payload_of-to_public_dict p issued expires = rw (issued, expires) refl

  -- What the libraries' documents say of a payload: reading a date undoes its writing, `json.loads`
  -- undoes `json.dumps`, base64 decoding undoes base64 encoding, and an encoded text is base64.
  pub record IsCodec (p : AttendanceQrPayload) : Type 0 where
    pub issued : env.fromisoformat (env.isoformat p.issued_at) ≡ some p.issued_at
    pub expires : env.fromisoformat (env.isoformat p.expires_at) ≡ some p.expires_at
    pub loads : env.loads (env.dumps (to_public_dict env p)) ≡ some (to_public_dict env p)
    pub decodes :
        env.urlsafe_b64decode (env.urlsafe_b64encode (env.dumps (to_public_dict env p)))
        ≡ some (env.dumps (to_public_dict env p))
    pub base64 : IsBase64 (env.urlsafe_b64encode (env.dumps (to_public_dict env p)))

  -- what the service encodes, it decodes
  decode-base64url_json :
      (p : AttendanceQrPayload)
      → IsCodec p
      → decode_base64url_json env (base64url_json env (to_public_dict env p))
        ≡ some (to_public_dict env p)
  unfolding decode_base64url_json base64url_json base64url
  decode-base64url_json p h =
      rw
        (
          decode_base64url_json,
          pad-rstrip (env.urlsafe_b64encode (env.dumps (to_public_dict env p))) h.base64,
        )
        (rw h.decodes h.loads)

  -- an encoded payload has no dot
  encoded-dot :
      (p : AttendanceQrPayload)
      → IsCodec p
      → has_dot (base64url_json env (to_public_dict env p)) ≡ false
  unfolding base64url_json base64url
  encoded-dot p h =
      let b = h.base64 in
      rw (b.whole, rstrip-append b.letters b.padding b.plain) (plain-dot b.letters b.plain)

  -- A generated attendance token is valid until it expires, and gives back the payload it was made
  -- of. Of the libraries this takes what `IsCodec` lists for that payload: `json.loads` undoes
  -- `json.dumps`, base64 decoding undoes base64 encoding, whose text is letters without a dot and
  -- the padding that fills the length up to a multiple of four, and reading a date undoes its
  -- writing.
  pub validate-generate :
      (session_id : String) (ttl : Option ℕ) (now : ℕ)
      → let (token, payload) = generate_attendance_qr_token env session_id ttl in
        IsCodec payload
        → now ≤ payload.expires_at
        → validate_attendance_qr_token env now token ≡ valid payload
  unfolding generate_attendance_qr_token validate_attendance_qr_token check_payload
  validate-generate session_id ttl now codec early =
      let (token, payload) = generate_attendance_qr_token env session_id ttl in
      let encoded = base64url_json env (to_public_dict env payload) in
      let in_time : ltb payload.expires_at now ≡ false = ground (arith, early) in
      rw
        (
          validate_attendance_qr_token,
          split_dot-join_dot encoded (sign env encoded) (encoded-dot payload codec),
          str_eq_refl (sign env encoded),
          decode-base64url_json payload codec,
          payload_of-to_public_dict payload codec.issued codec.expires,
          in_time,
        )
        refl

  check_payload-valid :
      (now : ℕ) (q p : AttendanceQrPayload)
      → check_payload env now q ≡ valid p
      → (now ≤ p.expires_at) × (p.version ≡ token_version) × (q ≡ p)
  unfolding check_payload
  check_payload-valid now q p = elim (Bool-cases (str_eq q.version token_version)) [
    | inr other ↦ rw (check_payload, other) (λ e. ground (arith, e))
    | inl known ↦
        rw (check_payload, known)
          (elim (Bool-cases (ltb q.expires_at now)) [
            | inl late ↦ rw late (λ e. ground (arith, e))
            | inr in_time ↦ rw in_time (λ e.
                let same : q ≡ p = ap (payload_or q) e in
                (
                  rw (← same) (ground (arith, in_time)),
                  rw (← same) ((eq_iff q.version token_version).0 known),
                  same,
                ))
          ])
  ]

  -- The token is the encoding of the payload's object and, after a dot, the signature of that
  -- encoding.
  pub record IsSigned (token : String) (p : AttendanceQrPayload) : Type 0 where
    pub encoded : String
    pub raw : List (String × String)
    pub joined : token ≡ join_dot encoded (sign env encoded)
    pub decoded : decode_base64url_json env encoded ≡ some raw
    pub read : payload_of env raw ≡ some p

  -- A token that is accepted is an encoded text, a dot and the signature of that text; the text
  -- decodes to the fields of the payload that the validation gives, which has not expired and is of
  -- the present version.
  pub validate-IsSigned :
      (now : ℕ) (token : String) (p : AttendanceQrPayload)
      → validate_attendance_qr_token env now token ≡ valid p
      → IsSigned token p × (now ≤ p.expires_at) × (p.version ≡ token_version)
  unfolding validate_attendance_qr_token
  validate-IsSigned now token p = elim (Option-cases (split_dot token)) [
    | inl whole ↦ rw (validate_attendance_qr_token, whole) (λ e. ground (arith, e))
    | inr ((a, b), parts) ↦
        rw (validate_attendance_qr_token, parts)
          (elim (Bool-cases (str_eq b (sign env a))) [
            | inr forged ↦ rw forged (λ e. ground (arith, e))
            | inl signed ↦ rw signed (elim (Option-cases (decode_base64url_json env a)) [
              | inl unreadable ↦ rw unreadable (λ e. ground (arith, e))
              | inr (raw, read) ↦ rw read (elim (Option-cases (payload_of env raw)) [
                | inl bad ↦ rw bad (λ e. ground (arith, e))
                | inr (q, good) ↦ rw good (λ e.
                    let (early, version, same) = check_payload-valid now q p e in
                    let by : b ≡ sign env a = (eq_iff b (sign env a)).0 signed in
                    (
                      record {
                        encoded = a;
                        raw = raw;
                        joined = join_dot-split_dot token (a, b) parts ∙ ap (join_dot a) by;
                        decoded = read;
                        read = good ∙ ap some same;
                      },
                      early,
                      version,
                    ))
              ])
            ])
          ])
  ]
