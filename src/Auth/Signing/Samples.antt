-- ===== src/Auth/Signing/Samples.antt =====
-- A runtime with unary numbers and a constant digest, for the tests of what is signed.
use Prim.Native.Char.{code}
use shield_api.Common.{
  ℕ, zero, suc, ◌≡◌, refl, ap, String, true, Option, none, some, List, [], ◌∷◌, undotted, eqb,
  if◌then◌else◌,
}
use shield_api.Auth.Signing.{Runtime, Number, nan, pos, neg, SigningKey, TokenFormat}

pub ones : ℕ → String
ones zero = ""
ones (suc n) = String.◌∷◌ "1" (ones n)

pub length : String → ℕ
length String.[] = 0
length (String.◌∷◌ c s) = suc (length s)

pub length-ones : (n : ℕ) → length (ones n) ≡ n
unfolding length ones
length-ones zero = refl
length-ones (suc n) = ap suc (length-ones n)

pub undotted-ones : (n : ℕ) → undotted (ones n) ≡ true
unfolding ones
undotted-ones zero = refl
undotted-ones (suc n) = undotted-ones n

abbrev pub show : Number → String
show nan = "NaN"
show (pos n) = ones n
show (neg n) = "-"

abbrev pub node : Runtime
node = record {
  hmac = λ secret text. "digest";
  to_base64url = λ text. text;
  from_base64url = λ text. text;
  show = show;
  parse_int = λ text. pos (length text);
  undotted-hmac = λ secret text. refl;
  undotted-show = undotted-ones;
  from_base64url-to_base64url = λ text. refl;
  parse_int-show = λ n. ap pos (length-ones n);
}

pub encode_head : ℕ → ℕ → String
unfolding ones
encode_head zero exp = String.◌∷◌ "x" (ones exp)
encode_head (suc iat) exp = String.◌∷◌ "1" (encode_head iat exp)

abbrev one_more : Option (ℕ × ℕ) → Option (ℕ × ℕ)
one_more none = none
one_more (some (iat, exp)) = some (suc iat, exp)

pub decode_head : String → Option (ℕ × ℕ)
unfolding length
decode_head String.[] = none
decode_head (String.◌∷◌ c s) =
    let rest = decode_head s in if eqb (code c) 120 then some (0, length s) else one_more rest

pub decode_head-encode_head : (iat exp : ℕ) → decode_head (encode_head iat exp) ≡ some (iat, exp)
unfolding decode_head encode_head
decode_head-encode_head zero exp = ap (λ n. some (0, n)) (length-ones exp)
decode_head-encode_head (suc iat) exp = ap one_more (decode_head-encode_head iat exp)

pub undotted-encode_head : (iat exp : ℕ) → undotted (encode_head iat exp) ≡ true
unfolding encode_head
undotted-encode_head zero exp = undotted-ones exp
undotted-encode_head (suc iat) exp = undotted-encode_head iat exp

abbrev pub format : TokenFormat ℕ
format = record {
  encode_head = encode_head;
  decode_head = decode_head;
  encode_payload = ones;
  decode_payload = λ s. some (length s);
  undotted-encode_head = undotted-encode_head;
  undotted-encode_payload = undotted-ones;
  decode_head-encode_head = decode_head-encode_head;
  decode_payload-encode_payload = λ p. ap some (length-ones p);
}

abbrev pub key : SigningKey
key = record { key_id = "k1"; key_secret = "secret"; expired_on = some 9000000 }

abbrev pub keys : List SigningKey
keys = key ∷ []
