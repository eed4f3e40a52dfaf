-- ===== src/Auth/Signing.antt =====
-- src/auth/auth.service.ts: signing keys, signatures and custom tokens. Times are in milliseconds
-- unless they are said to be in seconds. The cache of the keys is left out.
pub mod Tokens
pub mod Samples
mod Tests
use shield_api.Common.{
  ℕ, zero, suc, ◌+◌, ◌*◌, ◌/◌, ◌≡◌, String, Bool, true, false, not, ◌&&◌, List, [], ◌∷◌, ◌++◌,
  Option, none, some, find, get_or, concat, split_dot, slice, undotted, ltb, if◌then◌else◌, ◌==◌,
  Result, ok, raise, Error, throw_if, ◌>>=◌, ◌>>◌,
}

-- A JavaScript number as the code meets it, `neg n` for -n.
pub data Number : Type 0 where
  nan : Number
  pos neg : ℕ → Number

-- What the code uses of Node: HMAC-SHA256 of a secret and a text, in base64url; base64url of UTF-8;
-- the decimal text of a number and `parseInt`.
pub record Runtime : Type 0 where
  pub hmac : String → String → String
  pub to_base64url : String → String
  pub from_base64url : String → String
  pub show : Number → String
  pub parse_int : String → Number
  pub undotted-hmac : (secret text : String) → undotted (hmac secret text) ≡ true
  pub undotted-show : (n : ℕ) → undotted (show (pos n)) ≡ true
  pub from_base64url-to_base64url : (text : String) → from_base64url (to_base64url text) ≡ text
  pub parse_int-show : (n : ℕ) → parse_int (show (pos n)) ≡ pos n

-- A row of `SigningKey`.
pub record SigningKey : Type 0 where
  pub key_id : String
  pub key_secret : String
  pub expired_on : Option ℕ

abbrev or_create :
    String → String → List SigningKey → Option SigningKey → SigningKey × List SigningKey
or_create new_secret key_id keys (some key) = (key, keys)
or_create new_secret key_id keys none =
    let key : SigningKey = record { key_id = key_id; key_secret = new_secret; expired_on = none } in
    (key, keys ++ key ∷ [])

-- `new_secret`: what `createSecret` draws. The result holds the table of keys after the call.
unfoldable pub get_signing_key : String → String → List SigningKey → SigningKey × List SigningKey
get_signing_key new_secret key_id keys =
    or_create new_secret key_id keys (find (λ k. k.key_id == key_id) keys)

-- `timestampMs`: a timestamp below 1e12 is in seconds.
abbrev pub timestamp_ms : Number → Number
timestamp_ms nan = nan
timestamp_ms (pos n) = pos (if ltb n 1000000000000 then n * 1000 else n)
timestamp_ms (neg n) = neg (n * 1000)

-- `isBefore(expiredOn, new Date(ms))`, false at an invalid date
abbrev pub is_before : ℕ → Number → Bool
is_before expired_on (pos ms) = ltb expired_on ms
is_before expired_on _ = false

-- The key has expired by the timestamp.
abbrev pub expired_at : Option ℕ → Number → Bool
expired_at none timestamp = false
expired_at (some e) timestamp = is_before e (timestamp_ms timestamp)

module _ (node : Runtime) where
  open node use {hmac, show}

  unfoldable pub sign : SigningKey → String → Number → ℕ → String
  sign key text timestamp length =
      slice length (hmac key.key_secret (concat (text ∷ "." ∷ show timestamp ∷ [])))

  -- `generateSignature` once the key is found. A SigningKeyExpiredError is a plain error.
  unfoldable pub sign_with :
      (text : String) (timestamp : Number) (ignore_expired_key : Bool) (length : ℕ)
      → SigningKey × List SigningKey
      → Result (String × List SigningKey)
  unfolding sign
  sign_with text timestamp ignore_expired_key length found = do
    throw_if (not ignore_expired_key && expired_at found.0.expired_on timestamp) Error.plain
    ok (sign found.0 text timestamp length, found.1)

  -- `default_key_id`: of the configuration.
  unfoldable pub generate_signature :
      (new_secret default_key_id text : String) (timestamp : Number) (key_id : Option String)
      (ignore_expired_key : Bool) (length : ℕ) (keys : List SigningKey)
      → Result (String × List SigningKey)
  unfolding get_signing_key sign_with
  generate_signature new_secret default_key_id text timestamp key_id ignore_expired_key length
        keys =
      sign_with text timestamp ignore_expired_key length
        (get_signing_key new_secret (get_or key_id default_key_id) keys)

-- JSON in base64url for the two parts of a custom token, with the numbers of its head.
pub record TokenFormat (Payload : Type 0) : Type 0 where
  pub encode_head : (iat exp : ℕ) → String
  pub decode_head : String → Option (ℕ × ℕ)
  pub encode_payload : Payload → String
  pub decode_payload : String → Option Payload
  pub undotted-encode_head : (iat exp : ℕ) → undotted (encode_head iat exp) ≡ true
  pub undotted-encode_payload : (p : Payload) → undotted (encode_payload p) ≡ true
  pub decode_head-encode_head : (iat exp : ℕ) → decode_head (encode_head iat exp) ≡ some (iat, exp)
  pub decode_payload-encode_payload : (p : Payload) → decode_payload (encode_payload p) ≡ some p

-- What `validateCustomToken` returns.
pub data TokenResult (Payload : Type 0) : Type 0 where
  valid : Payload → TokenResult Payload
  invalid_token token_expired : TokenResult Payload

-- The text that a template string has for a part that may be missing.
abbrev pub text_of : Option String → String
text_of none = "undefined"
text_of (some s) = s

abbrev pub part : ℕ → List String → Option String
part n [] = none
part zero (x ∷ xs) = some x
part (suc n) (x ∷ xs) = part n xs

module _ {Payload : Type 0} (node : Runtime) (format : TokenFormat Payload)
    (new_secret default_key_id : String) where
  open format use {encode_head, decode_head, encode_payload, decode_payload}

  unfoldable pub generate_custom_token :
      (now : ℕ) (payload : Payload) (expires_in_seconds : ℕ) (keys : List SigningKey)
      → Result (String × List SigningKey)
  unfolding generate_signature
  generate_custom_token now payload expires_in_seconds keys = do
    let now_seconds = now / 1000
    let head = encode_head now_seconds (now_seconds + expires_in_seconds)
    let body = encode_payload payload
    signed ←
        generate_signature node new_secret default_key_id (concat (head ∷ "." ∷ body ∷ []))
          (pos now_seconds) none false 16 keys
    ok (concat (head ∷ "." ∷ body ∷ "." ∷ signed.0 ∷ []), signed.1)

  abbrev payload_result : Option Payload → TokenResult Payload
  payload_result none = invalid_token
  payload_result (some p) = valid p

  -- `timingSafeEqual`, which is a mismatch where the part is missing or has another length.
  abbrev same_text : String → Option String → Bool
  same_text challenge none = false
  same_text challenge (some signature) = challenge == signature

  -- `validateCustomToken` once the head is decoded.
  unfoldable pub check_custom_token :
      (now : ℕ) (parts : List String) (head : Option (ℕ × ℕ)) (keys : List SigningKey)
      → Result (TokenResult Payload × List SigningKey)
  unfolding generate_signature
  check_custom_token now parts none keys = ok (invalid_token, keys)
  check_custom_token now parts (some (iat, exp)) keys =
      if ltb (exp * 1000) now then ok (token_expired, keys) else do
        signed ←
            generate_signature node new_secret default_key_id
              (concat (text_of (part 0 parts) ∷ "." ∷ text_of (part 1 parts) ∷ [])) (pos iat) none
              false 16 keys
        ok (
          (if same_text signed.0 (part 2 parts)
              then payload_result (decode_payload (text_of (part 1 parts)))
              else invalid_token),
          signed.1,
        )

  unfoldable pub validate_custom_token :
      (now : ℕ) (token : String) (keys : List SigningKey)
      → Result (TokenResult Payload × List SigningKey)
  unfolding check_custom_token
  validate_custom_token now token keys =
      check_custom_token now (split_dot token) (decode_head (text_of (part 0 (split_dot token))))
        keys
