-- ===== src/Tags/Tokens.antt =====
-- src/assets/tags/tags.service.ts: signed tag URLs and inspection tokens.
pub mod RoundTrip
use shield_api.Common.{
  ℕ, ◌+◌, ◌≡◌, String, Bool, true, false, List, [], ◌∷◌, Option, none, some, get_or, concat,
  split_dot, ltb, if◌then◌else◌, ◌==◌, Result, ok, raise, Error, ◌>>=◌,
}
use shield_api.Auth.Signing.{
  Runtime, Number, nan, pos, neg, SigningKey, generate_signature, part, text_of,
}

-- What a signed tag URL carries: sn, id, t, sig and kid.
pub record SignedUrl : Type 0 where
  pub serial_number : String
  pub id : String
  pub timestamp : Number
  pub signature : String
  pub key_id : String

pub record ParsedToken : Type 0 where
  pub serial_number : Option String
  pub tag_external_id : Option String
  pub expires_on : Number
  pub timestamp : Number
  pub key_id : Option String
  pub signature : Option String

pub data Reason : Type 0 where
  expired invalid_signature : Reason

-- What `validateInspectionToken` returns.
pub record Validation : Type 0 where
  pub is_valid : Bool
  pub reason : Option Reason
  pub tag_external_id : Option String
  pub expires_on : Number
  pub serial_number : Option String

-- What `validateTagSignature` returns, besides its argument.
pub record UrlValidation : Type 0 where
  pub is_valid : Bool
  pub inspection_token : Option String

-- `isAfter(new Date(), new Date(ms))`, false at an invalid date
abbrev pub is_after : ℕ → Number → Bool
is_after now nan = false
is_after now (pos ms) = ltb ms now
is_after now (neg ms) = true

-- `safeEqualStrings`; `Buffer.from` throws where the text is missing.
abbrev pub safe_equal_strings : String → Option String → Result Bool
safe_equal_strings a none = raise Error.plain
safe_equal_strings a (some b) = ok (a == b)

abbrev pub hour : ℕ
hour = 3600000

-- The length of the signatures, SIG_LENGTH.
abbrev pub sig_length : ℕ
sig_length = 16

-- `new_secret` and `default_key_id` as in `Auth.Signing`; `now` is what the clock shows.
module _ (node : Runtime) (new_secret default_key_id : String) where
  open node use {to_base64url, from_base64url, show, parse_int}

  unfoldable pub generate_tag_url_signature :
      (serial_number id : String) (timestamp : Number) (key_id : String) (keys : List SigningKey)
      → Result (String × List SigningKey)
  unfolding generate_signature
  generate_tag_url_signature serial_number id timestamp key_id keys =
      generate_signature node new_secret default_key_id (concat (serial_number ∷ "." ∷ id ∷ []))
        timestamp (some key_id) false sig_length keys

  -- `new_id`: what `createId` draws. The result is what the URL is built of.
  unfoldable pub generate_signed_url :
      (now : ℕ) (new_id key_id serial_number : String) (external_id : Option String)
      (keys : List SigningKey)
      → Result (SignedUrl × List SigningKey)
  unfolding generate_tag_url_signature
  generate_signed_url now new_id key_id serial_number external_id keys = do
    let id = get_or external_id new_id
    signed ← generate_tag_url_signature serial_number id (pos now) key_id keys
    ok (
      record {
        serial_number = serial_number;
        id = id;
        timestamp = pos now;
        signature = signed.0;
        key_id = key_id;
      },
      signed.1,
    )

  -- The text that the signature of an inspection token is about.
  abbrev pub token_text : String → String → Number → String
  token_text serial_number external_id expires_on =
      concat (serial_number ∷ "." ∷ external_id ∷ "." ∷ show expires_on ∷ [])

  abbrev pub token_data : String → String → Number → Number → String → String → String
  token_data serial_number external_id expires_on timestamp key_id signature = concat (
      serial_number
      ∷ "."
      ∷ external_id
      ∷ "."
      ∷ show expires_on
      ∷ "."
      ∷ show timestamp
      ∷ "."
      ∷ key_id
      ∷ "."
      ∷ signature
      ∷ [])

  unfoldable pub generate_inspection_token :
      (now : ℕ) (serial_number external_id : String) (keys : List SigningKey)
      → Result (String × List SigningKey)
  unfolding generate_signature
  generate_inspection_token now serial_number external_id keys = do
    let expires_on = pos (now + hour)
    signed ←
        generate_signature node new_secret default_key_id
          (token_text serial_number external_id expires_on) (pos now) (some default_key_id) false
          sig_length keys
    ok (
      to_base64url
          (token_data serial_number external_id expires_on (pos now) default_key_id signed.0),
      signed.1,
    )

  abbrev number_of : Option String → Number
  number_of none = nan
  number_of (some s) = parse_int s

  abbrev pub parse_parts : List String → ParsedToken
  parse_parts parts = record {
    serial_number = part 0 parts;
    tag_external_id = part 1 parts;
    expires_on = number_of (part 2 parts);
    timestamp = number_of (part 3 parts);
    key_id = part 4 parts;
    signature = part 5 parts;
  }

  unfoldable pub parse_inspection_token : String → ParsedToken
  parse_inspection_token token = parse_parts (split_dot (from_base64url token))

  abbrev validation : ParsedToken → Bool → Option Reason → Validation
  validation p is_valid reason = record {
    is_valid = is_valid;
    reason = reason;
    tag_external_id = p.tag_external_id;
    expires_on = p.expires_on;
    serial_number = p.serial_number;
  }

  -- `validateInspectionToken` once the token is parsed.
  unfoldable pub validate_parsed :
      (now : ℕ) → ParsedToken → (keys : List SigningKey) → Result (Validation × List SigningKey)
  unfolding generate_signature
  validate_parsed now p keys =
      if is_after now p.expires_on then ok (validation p false (some expired), keys) else do
        signed ←
            generate_signature node new_secret default_key_id
              (token_text (text_of p.serial_number) (text_of p.tag_external_id) p.expires_on)
              p.timestamp p.key_id false sig_length keys
        same ← safe_equal_strings signed.0 p.signature
        ok (
          (if same then validation p true none else validation p false (some invalid_signature)),
          signed.1,
        )

  unfoldable pub validate_inspection_token :
      (now : ℕ) (token : String) (keys : List SigningKey) → Result (Validation × List SigningKey)
  unfolding parse_inspection_token validate_parsed
  validate_inspection_token now token keys = validate_parsed now (parse_inspection_token token) keys

  abbrev token_if_valid :
      (now : ℕ)
      → SignedUrl
      → Bool
      → (keys : List SigningKey) → Result (UrlValidation × List SigningKey)
  token_if_valid now url false keys =
      ok (record { is_valid = false; inspection_token = none }, keys)
  token_if_valid now url true keys = do
    token ← generate_inspection_token now url.serial_number url.id keys
    ok (record { is_valid = true; inspection_token = some token.0 }, token.1)

  unfoldable pub validate_tag_signature :
      (now : ℕ) → SignedUrl → (keys : List SigningKey) → Result (UrlValidation × List SigningKey)
  unfolding generate_tag_url_signature generate_inspection_token
  validate_tag_signature now url keys = do
    signed ← generate_tag_url_signature url.serial_number url.id url.timestamp url.key_id keys
    token_if_valid now url (signed.0 == url.signature) signed.1
