-- ===== src/Auth/Signing/Tests.antt =====
-- The theorems on signatures and custom tokens at concrete inputs.
use shield_api.Common.{◌≡◌, refl, false, String, [], ◌∷◌, none, concat, ok, raise, Error, arith}
use shield_api.Auth.Signing.{
  pos, generate_signature, get_signing_key, sign_with, sign, valid, generate_custom_token,
  validate_custom_token,
}
use shield_api.Auth.Signing.Tokens.{validate-generate_custom_token}
use shield_api.Auth.Signing.Samples.{node, format, keys}

abbrev token : String
token = concat (format.encode_head 5 8 ∷ "." ∷ format.encode_payload 7 ∷ "." ∷ "digest" ∷ [])

token_run : generate_custom_token node format "new" "k1" 5000 7 3 keys ≡ ok (token, keys)
unfolding generate_custom_token generate_signature get_signing_key sign_with sign
token_run = refl

custom_token_example :
    validate_custom_token node format "new" "k1" 8000 token keys ≡ ok (valid 7, keys)
custom_token_example =
    validate-generate_custom_token node format "new" "new" "k1" 5000 8000 7 3 keys keys token
      (omega arith) token_run

-- The key expired before the timestamp in seconds.
expired_key :
    generate_signature node "new" "k1" "text" (pos 9001) none false 16 keys ≡ raise Error.plain
unfolding generate_signature get_signing_key sign_with sign
expired_key = refl
