-- ===== src/Auth/Signing/Tokens.antt =====
-- src/auth/auth.service.ts: a custom token that is generated is valid until it expires.
use shield_api.Common.{
  ℕ, ◌+◌, ◌*◌, ◌/◌, ◌≤◌, ◌≡◌, refl, sym, ◌∙◌, ap, subst, inl, inr, String, Bool, true, false, not,
  ◌&&◌, List, [], ◌∷◌, ◌++◌, Option, none, some, find, get_or, concat, split_dot, split-append,
  split-undotted, undotted, undotted-slice, ltb, ◌==◌, eq_iff, arith, Bool-cases, Option-cases, ok,
  ok-injective, >>=-eq-ok,
}
use text.Mathlib.TextLemmas.{append-nil}
use shield_api.Auth.Signing.{
  Runtime, Number, pos, SigningKey, get_signing_key, generate_signature, sign, sign_with,
  TokenFormat, valid, part, text_of, generate_custom_token, check_custom_token,
  validate_custom_token, expired_at,
}

module _ (P : SigningKey → Bool) where
  find-append :
      (xs : List SigningKey) (x : SigningKey)
      → find P xs ≡ none
      → P x ≡ true
      → find P (xs ++ x ∷ []) ≡ some x
  find-append [] x e h = rw h refl
  find-append (y ∷ xs) x e h = ground (arith, find-append xs x)

get_signing_key-find :
    (new_secret key_id : String) (keys : List SigningKey)
    → find (λ k. k.key_id == key_id) (get_signing_key new_secret key_id keys).1
      ≡ some (get_signing_key new_secret key_id keys).0
unfolding get_signing_key
get_signing_key-find new_secret key_id keys =
    elim (Option-cases (find (λ k. k.key_id == key_id) keys)) [
      | inr (k, e) ↦ rw e e
      | inl e ↦
          let key : SigningKey = record {
            key_id = key_id;
            key_secret = new_secret;
            expired_on = none;
          } in
          rw e (find-append (λ k. k.key_id == key_id) keys key e ((eq_iff key_id key_id).1 refl))
    ]

-- Asked again for a key, the table gives the same one and stays as it is.
get_signing_key_again :
    (new_secret new_secret' key_id : String) (keys : List SigningKey)
    → get_signing_key new_secret' key_id (get_signing_key new_secret key_id keys).1
      ≡ get_signing_key new_secret key_id keys
unfolding get_signing_key
get_signing_key_again new_secret new_secret' key_id keys =
    let r = get_signing_key new_secret key_id keys in
    found_again r.1 r.0 (get_signing_key-find new_secret key_id keys)
  where
    found_again :
        (ks : List SigningKey) (k : SigningKey)
        → find (λ k. k.key_id == key_id) ks ≡ some k
        → get_signing_key new_secret' key_id ks ≡ (k, ks)
    found_again ks k e = rw e refl

module _ (node : Runtime) where
  sign_with-keys :
      (text : String) (timestamp : Number) (ignore : Bool) (length : ℕ)
      (found : SigningKey × List SigningKey) (signed : String × List SigningKey)
      → sign_with node text timestamp ignore length found ≡ ok signed
      → (found.1 ≡ signed.1) × (signed.0 ≡ sign node found.0 text timestamp length)
  unfolding sign_with
  sign_with-keys text timestamp ignore length found signed h =
      elim (Bool-cases (not ignore && expired_at found.0.expired_on timestamp)) [
        | inl e ↦ absurd (cc)
        | inr e ↦
            let q : (sign node found.0 text timestamp length, found.1) ≡ signed =
              ok-injective (rw e at h) in
            (ap (λ p. p.1) q, sym (ap (λ p. p.0) q))
      ]

  -- The signature has no dot in it.
  pub undotted-generate_signature :
      (new_secret d text : String) (timestamp : Number) (key_id : Option String) (ignore : Bool)
      (length : ℕ) (keys : List SigningKey) (signed : String × List SigningKey)
      → generate_signature node new_secret d text timestamp key_id ignore length keys ≡ ok signed
      → undotted signed.0 ≡ true
  unfolding generate_signature sign
  undotted-generate_signature new_secret d text timestamp key_id ignore length keys signed h =
      let found = get_signing_key new_secret (get_or key_id d) keys in
      ap undotted (sign_with-keys text timestamp ignore length found signed h).1
      ∙ undotted-slice length _ (node.undotted-hmac _ _)

  -- A signature that was generated is generated again, with the table that the first call left.
  pub generate_signature_again :
      (new_secret new_secret' d text : String) (timestamp : Number) (key_id : Option String)
      (ignore : Bool) (length : ℕ) (keys : List SigningKey) (signed : String × List SigningKey)
      → generate_signature node new_secret d text timestamp key_id ignore length keys ≡ ok signed
      → generate_signature node new_secret' d text timestamp key_id ignore length signed.1
        ≡ ok signed
  unfolding generate_signature
  generate_signature_again new_secret new_secret' d text timestamp key_id ignore length keys signed
        h =
      let found = get_signing_key new_secret (get_or key_id d) keys in
      let same = (sign_with-keys text timestamp ignore length found signed h).0 in
      ap (sign_with node text timestamp ignore length) (
        ap (get_signing_key new_secret' (get_or key_id d)) (sym same)
        ∙ get_signing_key_again new_secret new_secret' (get_or key_id d) keys)
      ∙ h

pub split-join_three :
    (a b c : String)
    → undotted a ≡ true
    → undotted b ≡ true
    → undotted c ≡ true
    → split_dot (concat (a ∷ "." ∷ b ∷ "." ∷ c ∷ [])) ≡ a ∷ b ∷ c ∷ []
split-join_three a b c p q r =
    split-append a _ p
    ∙ ap (λ l. a ∷ l)
        (split-append b _ q ∙ ap (λ l. b ∷ l) (ap split_dot (append-nil c) ∙ split-undotted c r))

module _ {Payload : Type 0} (node : Runtime) (format : TokenFormat Payload)
    (new_secret new_secret' default_key_id : String) where
  check_custom_token_lem :
      (later iat exp : ℕ) (head body : String) (payload : Payload)
      (signed : String × List SigningKey)
      → later ≤ exp * 1000
      → format.decode_payload body ≡ some payload
      → generate_signature node new_secret' default_key_id
          (concat (head ∷ "." ∷ body ∷ []))
          (pos iat)
          none
          false
          16
          signed.1
        ≡ ok signed
      → check_custom_token node format new_secret' default_key_id later
          (head ∷ body ∷ signed.0 ∷ [])
          (some (iat, exp))
          signed.1
        ≡ ok (valid payload, signed.1)
  unfolding check_custom_token
  check_custom_token_lem later iat exp head body payload signed in_time d g =
      let current : ltb (exp * 1000) later ≡ false = ground arith in
      let matches : (signed.0 == signed.0) ≡ true = (eq_iff signed.0 signed.0).1 refl in
      rw (current, g, matches, d) refl

  -- A custom token that `generateCustomToken` returns is valid, with its payload, at any time up to
  -- the second at which it expires.
  pub validate-generate_custom_token :
      (now later : ℕ) (payload : Payload) (expires_in_seconds : ℕ) (keys keys' : List SigningKey)
      (token : String)
      → later ≤ (now / 1000 + expires_in_seconds) * 1000
      → generate_custom_token node format new_secret default_key_id now payload expires_in_seconds
          keys
        ≡ ok (token, keys')
      → validate_custom_token node format new_secret' default_key_id later token keys'
        ≡ ok (valid payload, keys')
  unfolding generate_custom_token validate_custom_token
  validate-generate_custom_token now later payload secs keys keys' token in_time h =
      let head = format.encode_head (now / 1000) (now / 1000 + secs) in
      let body = format.encode_payload payload in
      let (signed, g, r) =
        >>=-eq-ok
          (generate_signature node new_secret default_key_id (concat (head ∷ "." ∷ body ∷ []))
            (pos (now / 1000)) none false 16 keys)
          _ h in
      let sig =
        undotted-generate_signature node new_secret default_key_id (concat (head ∷ "." ∷ body ∷ []))
          (pos (now / 1000)) none false 16 keys signed g in
      let parts =
        split-join_three head body signed.0 (format.undotted-encode_head _ _)
          (format.undotted-encode_payload payload) sig in
      let again =
        generate_signature_again node new_secret new_secret' default_key_id
          (concat (head ∷ "." ∷ body ∷ [])) (pos (now / 1000)) none false 16 keys signed g in
      subst
        (λ z.
          validate_custom_token node format new_secret' default_key_id later z.0 z.1
          ≡ ok (valid payload, z.1))
        (ok-injective r)
        (ap
            (λ ps.
              check_custom_token node format new_secret' default_key_id later ps
                (format.decode_head (text_of (part 0 ps))) signed.1)
            parts
          ∙ ap
              (λ o.
                check_custom_token node format new_secret' default_key_id later
                  (head ∷ body ∷ signed.0 ∷ []) o signed.1)
              (format.decode_head-encode_head _ _)
          ∙ check_custom_token_lem later _ _ head body payload signed in_time
              (format.decode_payload-encode_payload payload) again)
