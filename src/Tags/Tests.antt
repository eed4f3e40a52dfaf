-- ===== src/Tags/Tests.antt =====
-- The theorems on tags at concrete inputs.
use shield_api.Common.{◌≡◌, refl, true, String, none, some, ok, arith}
use shield_api.Auth.Signing.{pos, generate_signature, get_signing_key, sign_with, sign}
use shield_api.Auth.Signing.Samples.{node, keys}
use shield_api.Tags.Tokens.{
  SignedUrl, token_data, generate_inspection_token, generate_tag_url_signature, generate_signed_url,
  validate_inspection_token, validate_tag_signature,
}
use shield_api.Tags.Tokens.RoundTrip.{
  accepted, validate-generate_inspection_token, validate-generate_signed_url,
}

abbrev token : String
token = token_data node "new" "k1" "SN1" "t1" (pos 3605000) (pos 5000) "k1" "digest"

token_run : generate_inspection_token node "new" "k1" 5000 "SN1" "t1" keys ≡ ok (token, keys)
unfolding generate_inspection_token generate_signature get_signing_key sign_with sign
token_run = refl

inspection_token_example :
    validate_inspection_token node "new" "k1" 3605000 token keys
    ≡ ok (accepted "SN1" "t1" 5000, keys)
inspection_token_example =
    validate-generate_inspection_token node "new" "new" "k1" 5000 3605000 "SN1" "t1" token keys keys
      refl refl refl (omega arith) token_run

abbrev url : SignedUrl
url = record {
  serial_number = "SN1";
  id = "t1";
  timestamp = pos 4000;
  signature = "digest";
  key_id = "k1";
}

url_run : generate_signed_url node "new" "k1" 4000 "t1" "k1" "SN1" none keys ≡ ok (url, keys)
unfolding generate_signed_url generate_tag_url_signature generate_signature get_signing_key
    sign_with sign
url_run = refl

signed_url_example :
    (validate_tag_signature node "new" "k1" 5000 url keys
      ≡ ok (record { is_valid = true; inspection_token = some token }, keys))
    × (validate_inspection_token node "new" "k1" 6000 token keys
        ≡ ok (accepted "SN1" "t1" 5000, keys))
signed_url_example =
    validate-generate_signed_url node "new" "new" "k1" 4000 5000 6000 "t1" "k1" "SN1" token none url
      keys keys keys refl refl refl (omega arith) url_run token_run
