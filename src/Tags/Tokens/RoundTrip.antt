-- ===== src/Tags/Tokens/RoundTrip.antt =====
-- src/assets/tags/tags.service.ts: what is signed is found valid.
use shield_api.Common.{
  ℕ, ◌+◌, ◌≤◌, ◌≡◌, refl, sym, ◌∙◌, ap, subst, String, true, false, List, [], ◌∷◌, Option, none,
  some, get_or, concat, split_dot, split-append, split-undotted, undotted, ltb, ◌==◌, eq_iff, arith,
  ok, >>=-eq-ok, ok-injective,
}
use text.Mathlib.TextLemmas.{append-nil}
use shield_api.Auth.Signing.{Runtime, pos, SigningKey, generate_signature}
use shield_api.Auth.Signing.Tokens.{generate_signature_again, undotted-generate_signature}
use shield_api.Tags.Tokens.{
  SignedUrl, ParsedToken, Validation, hour, sig_length, generate_tag_url_signature,
  generate_signed_url, token_text, token_data, generate_inspection_token, parse_parts,
  parse_inspection_token, validate_parsed, validate_inspection_token, validate_tag_signature,
}

split-join_six :
    (a b c d e f : String)
    → undotted a ≡ true
    → undotted b ≡ true
    → undotted c ≡ true
    → undotted d ≡ true
    → undotted e ≡ true
    → undotted f ≡ true
    → split_dot (concat (a ∷ "." ∷ b ∷ "." ∷ c ∷ "." ∷ d ∷ "." ∷ e ∷ "." ∷ f ∷ []))
      ≡ a ∷ b ∷ c ∷ d ∷ e ∷ f ∷ []
split-join_six a b c d e f p q r s t u =
    split-append a _ p
    ∙ ap (λ l. a ∷ l)
        (split-append b _ q
          ∙ ap (λ l. b ∷ l)
              (split-append c _ r
                ∙ ap (λ l. c ∷ l)
                    (split-append d _ s
                      ∙ ap (λ l. d ∷ l)
                          (split-append e _ t
                            ∙ ap (λ l. e ∷ l) (ap split_dot (append-nil f) ∙ split-undotted f u)))))

-- The validation of a token for the tag that was issued at the time.
abbrev pub accepted : String → String → ℕ → Validation
accepted serial_number external_id now = record {
  is_valid = true;
  reason = none;
  tag_external_id = some external_id;
  expires_on = pos (now + hour);
  serial_number = some serial_number;
}

module _ (node : Runtime) (new_secret new_secret' default_key_id : String) where
  open node use {show, parse_int}

  abbrev parsed : String → String → ℕ → String → ParsedToken
  parsed serial_number external_id now signature = record {
    serial_number = some serial_number;
    tag_external_id = some external_id;
    expires_on = pos (now + hour);
    timestamp = pos now;
    key_id = some default_key_id;
    signature = some signature;
  }

  parse_token :
      (serial_number external_id signature : String) (now : ℕ)
      → undotted serial_number ≡ true
      → undotted external_id ≡ true
      → undotted default_key_id ≡ true
      → undotted signature ≡ true
      → parse_inspection_token node new_secret default_key_id (
          node.to_base64url (
            token_data node new_secret default_key_id serial_number external_id
              (pos (now + hour))
              (pos now)
              default_key_id
              signature))
        ≡ parsed serial_number external_id now signature
  unfolding parse_inspection_token
  parse_token sn ext sig now p q k s =
      let expires = node.parse_int-show (now + hour) in
      let issued = node.parse_int-show now in
      ap (λ text. parse_parts node new_secret default_key_id (split_dot text))
        (node.from_base64url-to_base64url _)
      ∙ ap (parse_parts node new_secret default_key_id) (
          split-join_six sn ext (show (pos (now + hour))) (show (pos now)) default_key_id sig p q
            (node.undotted-show _) (node.undotted-show _) k s)
      ∙ rw (expires, issued) refl

  validate_parsed_lem :
      (later now : ℕ) (sn ext : String) (signed : String × List SigningKey)
      → later ≤ now + hour
      → generate_signature node new_secret' default_key_id
          (token_text node new_secret default_key_id sn ext (pos (now + hour)))
          (pos now)
          (some default_key_id)
          false
          sig_length
          signed.1
        ≡ ok signed
      → validate_parsed node new_secret' default_key_id later (parsed sn ext now signed.0) signed.1
        ≡ ok (accepted sn ext now, signed.1)
  unfolding validate_parsed
  validate_parsed_lem later now sn ext signed in_time g =
      let current : ltb (now + hour) later ≡ false = ground arith in
      let matches : (signed.0 == signed.0) ≡ true = (eq_iff signed.0 signed.0).1 refl in
      rw (current, g, matches) refl

  -- An inspection token that `generateInspectionToken` returns is valid for the next hour, with the
  -- serial number and the id that it was issued for, where these and the id of the default key have
  -- no dot in them.
  pub validate-generate_inspection_token :
      (now later : ℕ) (serial_number external_id token : String) (keys keys' : List SigningKey)
      → undotted serial_number ≡ true
      → undotted external_id ≡ true
      → undotted default_key_id ≡ true
      → later ≤ now + hour
      → generate_inspection_token node new_secret default_key_id now serial_number external_id keys
        ≡ ok (token, keys')
      → validate_inspection_token node new_secret' default_key_id later token keys'
        ≡ ok (accepted serial_number external_id now, keys')
  unfolding generate_inspection_token validate_inspection_token
  validate-generate_inspection_token now later sn ext token keys keys' p q k in_time h =
      let text = token_text node new_secret default_key_id sn ext (pos (now + hour)) in
      let (signed, g, r) =
        >>=-eq-ok
          (generate_signature node new_secret default_key_id text (pos now) (some default_key_id)
            false sig_length keys)
          _ h in
      let sig =
        undotted-generate_signature node new_secret default_key_id text (pos now)
          (some default_key_id) false sig_length keys signed g in
      let again =
        generate_signature_again node new_secret new_secret' default_key_id text (pos now)
          (some default_key_id) false sig_length keys signed g in
      subst
        (λ z.
          validate_inspection_token node new_secret' default_key_id later z.0 z.1
          ≡ ok (accepted sn ext now, z.1))
        (ok-injective r)
        (ap (λ t. validate_parsed node new_secret' default_key_id later t signed.1)
            (parse_token sn ext signed.0 now p q k sig)
          ∙ validate_parsed_lem later now sn ext signed in_time again)

module _ (node : Runtime) (new_secret new_secret' default_key_id : String) where
  -- A signed URL that `generateSignedUrl` returns is found valid by `validateTagSignature`, which
  -- returns an inspection token, where one can be signed at that time; and this token is valid for
  -- the next hour, with the serial number and id of the URL.
  pub validate-generate_signed_url :
      (now later last : ℕ) (new_id key_id serial_number token : String)
      (external_id : Option String) (url : SignedUrl) (keys keys' keys'' : List SigningKey)
      → undotted serial_number ≡ true
      → undotted (get_or external_id new_id) ≡ true
      → undotted default_key_id ≡ true
      → last ≤ later + hour
      → generate_signed_url node new_secret default_key_id now new_id key_id serial_number
          external_id keys
        ≡ ok (url, keys')
      → generate_inspection_token node new_secret' default_key_id later serial_number
          (get_or external_id new_id)
          keys'
        ≡ ok (token, keys'')
      → (validate_tag_signature node new_secret' default_key_id later url keys'
          ≡ ok (record { is_valid = true; inspection_token = some token }, keys''))
        × (validate_inspection_token node new_secret' default_key_id last token keys''
            ≡ ok (accepted serial_number (get_or external_id new_id) later, keys''))
  unfolding generate_signed_url validate_tag_signature generate_tag_url_signature
  validate-generate_signed_url now later last new_id key_id sn token ext url keys keys' keys'' p q k
        in_time h issued =
      let id = get_or ext new_id in
      let (signed, g, r) =
        >>=-eq-ok
          (generate_tag_url_signature node new_secret default_key_id sn id (pos now) key_id keys) _
          h in
      let again =
        generate_signature_again node new_secret new_secret' default_key_id
          (concat (sn ∷ "." ∷ id ∷ [])) (pos now) (some key_id) false sig_length keys signed g in
      let matches : (signed.0 == signed.0) ≡ true = (eq_iff signed.0 signed.0).1 refl in
      let same_keys : signed.1 ≡ keys' = ap (λ z. z.1) (ok-injective r) in
      let issued' : generate_inspection_token node new_secret' default_key_id later sn id signed.1
          ≡ ok (token, keys'') =
        subst
          (λ ks.
            generate_inspection_token node new_secret' default_key_id later sn id ks
            ≡ ok (token, keys''))
          (sym same_keys) issued in
      (
        subst
            (λ z.
              validate_tag_signature node new_secret' default_key_id later z.0 z.1
              ≡ ok (record { is_valid = true; inspection_token = some token }, keys''))
            (ok-injective r) (rw (again, matches, issued') refl),
        validate-generate_inspection_token node new_secret' new_secret' default_key_id later last sn
            id token keys' keys'' p q k in_time issued,
      )
