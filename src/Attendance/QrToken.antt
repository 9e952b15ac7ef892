-- ===== src/Attendance/QrToken.antt =====
-- services/attendance_qr_service.py: a signed token for an attendance session. The libraries that it
-- calls, for JSON, base64, HMAC and dates, are parameters.
use Prim.Native.Char.{Char, code}
use enactspace.Shared.{
  ℕ, ◌+◌, String, Bool, not, Option, none, some, List, [], ◌∷◌, ◌==◌, str_eq, ltb, if◌then◌else◌,
}
use enactspace.Attendance.Base64.{rstrip_equals, pad_base64}

pub record AttendanceQrPayload : Type 0 where
  pub session_id : String
  pub issued_at : ℕ
  pub expires_at : ℕ
  pub nonce : String
  pub version : String

-- what `validate_attendance_qr_token` gives, or the error that it raises
pub data Validation : Type 0 where
  valid : AttendanceQrPayload → Validation
  invalid_token expired_token : Validation

pub record QrEnv : Type 0 where
  pub utcnow : ℕ
  -- `settings.ATTENDANCE_QR_TTL_SECONDS`
  pub default_ttl : ℕ
  -- `secrets.token_urlsafe(16)`
  pub nonce : String
  -- `hmac.new(…, hashlib.sha256).digest()` of a text, by the secret of the settings
  pub digest : String → List ℕ
  -- `json.dumps(…, sort_keys=True).encode("utf-8")` of an object of texts, and `json.loads` of the
  -- decoded bytes, none where either raises or gives no object
  pub dumps : List (String × String) → List ℕ
  pub loads : List ℕ → Option (List (String × String))
  -- `base64.urlsafe_b64encode(…).decode("ascii")`, and `base64.urlsafe_b64decode` of a text's ascii
  -- bytes, none where either raises
  pub urlsafe_b64encode : List ℕ → String
  pub urlsafe_b64decode : String → Option (List ℕ)
  -- `datetime.isoformat` and `datetime.fromisoformat`
  pub isoformat : ℕ → String
  pub fromisoformat : String → Option ℕ

abbrev pub token_version : String
token_version = "v1"

abbrev pub is_dot : Char → Bool
is_dot c = code c == code "."

-- f"{a}.{b}"
unfoldable pub join_dot : String → String → String
join_dot String.[] b = String.◌∷◌ "." b
join_dot (String.◌∷◌ c a) b = String.◌∷◌ c (join_dot a b)

-- what stands before and after the first dot
abbrev pub behind : Char → Option (String × String) → Option (String × String)
behind c none = none
behind c (some r) = some (String.◌∷◌ c r.0, r.1)

-- `token.split(".", 1)`, or none where there is no dot
unfoldable pub split_dot : String → Option (String × String)
split_dot String.[] = none
split_dot (String.◌∷◌ c s) =
    let rest = split_dot s in if is_dot c then some (String.[], s) else behind c rest

-- `raw_payload[key]`, or none for a KeyError
unfoldable pub value_of : String → List (String × String) → Option String
value_of key [] = none
value_of key (entry ∷ entries) = if str_eq entry.0 key then some entry.1 else value_of key entries

abbrev pub text_or_empty : Option String → String
text_or_empty none = ""
text_or_empty (some s) = s

module _ (env : QrEnv) where
  unfoldable pub to_public_dict : AttendanceQrPayload → List (String × String)
  to_public_dict p =
      ("session_id", p.session_id)
      ∷ ("issued_at", env.isoformat p.issued_at)
      ∷ ("expires_at", env.isoformat p.expires_at)
      ∷ ("nonce", p.nonce)
      ∷ ("version", p.version)
      ∷ []

  unfoldable pub base64url : List ℕ → String
  base64url value = rstrip_equals (env.urlsafe_b64encode value)

  unfoldable pub sign : String → String
  sign encoded_payload = base64url (env.digest encoded_payload)

  unfoldable pub base64url_json : List (String × String) → String
  base64url_json value = base64url (env.dumps value)

  -- none where `_decode_base64url_json` raises
  unfoldable pub decode_base64url_json : String → Option (List (String × String))
  decode_base64url_json value = elim (env.urlsafe_b64decode (pad_base64 value)) [
    | none ↦ none
    | some decoded ↦ env.loads decoded
  ]

  -- `ttl_seconds or settings.ATTENDANCE_QR_TTL_SECONDS`
  abbrev pub ttl_or_default : Option ℕ → ℕ
  ttl_or_default none = env.default_ttl
  ttl_or_default (some n) = if n == 0 then env.default_ttl else n

  unfoldable pub generate_attendance_qr_token : String → Option ℕ → String × AttendanceQrPayload
  unfolding to_public_dict join_dot
  generate_attendance_qr_token session_id ttl_seconds =
      let payload : AttendanceQrPayload = record {
        session_id = session_id;
        issued_at = env.utcnow;
        expires_at = env.utcnow + ttl_or_default ttl_seconds;
        nonce = env.nonce;
        version = token_version;
      } in
      let encoded_payload = base64url_json (to_public_dict payload) in
      (join_dot encoded_payload (sign encoded_payload), payload)

  abbrev pub date_of : String → List (String × String) → Option ℕ
  date_of key raw = elim (value_of key raw) [ none ↦ none | some s ↦ env.fromisoformat s ]

  -- the payload of the object, or none where a field is missing or no date
  unfoldable pub payload_of : List (String × String) → Option AttendanceQrPayload
  unfolding value_of
  payload_of raw = elim (value_of "session_id" raw) [
    | none ↦ none
    | some session_id ↦ elim (date_of "issued_at" raw) [
      | none ↦ none
      | some issued_at ↦ elim (date_of "expires_at" raw) [
        | none ↦ none
        | some expires_at ↦ elim (value_of "nonce" raw) [
          | none ↦ none
          | some nonce ↦ some (record {
            session_id = session_id;
            issued_at = issued_at;
            expires_at = expires_at;
            nonce = nonce;
            version = text_or_empty (value_of "version" raw);
          })
        ]
      ]
    ]
  ]

  unfoldable pub check_payload : ℕ → AttendanceQrPayload → Validation
  check_payload now p =
      if not (str_eq p.version token_version)
      then invalid_token
      else if ltb p.expires_at now
      then expired_token
      else valid p

  unfoldable pub validate_attendance_qr_token : ℕ → String → Validation
  unfolding split_dot payload_of check_payload
  validate_attendance_qr_token now token = elim (split_dot token) [
    | none ↦ invalid_token
    | some parts ↦
        if not (str_eq parts.1 (sign parts.0))
        then invalid_token
        else elim (decode_base64url_json parts.0) [
          | none ↦ invalid_token
          | some raw ↦ elim (payload_of raw) [ none ↦ invalid_token | some p ↦ check_payload now p ]
        ]
  ]
