-- ===== src/Security/Accepted.antt =====
-- VerifyPassword (password.go): what a text that it accepts says.
use dinchy.Prelude.{
  split, eq_num, ◌>>◌, guard, bind_some, ℕ, ◌<◌, String, ◌≡◌, true, some, List, [], ◌∷◌, length,
  sym, subst, not, ◌||◌, ◌&&◌, ◌==◌, ◌∙◌, arith, Option-cases, inl, inr,
}
use dinchy.Security.{
  Bytes, Primitives, PasswordHashParams, ParsedPasswordHash, read_params, set_param,
  parse_password_hash_params, parsed_parts, parse_password_hash, verify_password, key_of,
  split_pair, parse_uint32,
}
use dinchy.Security.Scanning.{constant_time_compare-eq}

abbrev pub IsUsable : PasswordHashParams → Type 0
IsUsable params =
    (0 < params.memory)
    × (0 < params.time)
    × (0 < params.threads)
    × (params.key_len ≡ 32)
    × (params.salt_len ≡ 16)

-- the lengths are not read from the text
set_param-lengths :
    (key : String) (v : ℕ) (params changed : PasswordHashParams)
    → set_param key v params ≡ some changed
    → (changed.key_len ≡ params.key_len) × (changed.salt_len ≡ params.salt_len)
unfolding set_param
set_param-lengths key v params changed h = ground arith

read_params-lengths :
    (parts : List String) (params read : PasswordHashParams)
    → read_params parts params ≡ some read
    → (read.key_len ≡ params.key_len) × (read.salt_len ≡ params.salt_len)
unfolding read_params
read_params-lengths [] params read h = ground arith
read_params-lengths (part ∷ parts) params read h =
    let (kv, _, h₁) = bind_some (split_pair b'=' part) _ read h in
    let (v, _, h₂) = bind_some (parse_uint32 kv.1) _ read h₁ in
    let (changed, set, h₃) = bind_some (set_param kv.0 v params) _ read h₂ in
    let (kept, kept') = set_param-lengths kv.0 v params changed set in
    let (same, same') = read_params-lengths parts changed read h₃ in (same ∙ kept, same' ∙ kept')

-- the last test of parsePasswordHashParams
positive :
    (q params : PasswordHashParams)
    → q.key_len ≡ 32
    → q.salt_len ≡ 16
    → (guard (not (eq_num q.memory 0 || eq_num q.time 0 || eq_num q.threads 0)) >> some q)
      ≡ some params
    → IsUsable params
positive q params k l h = ground arith

parse_password_hash_params-IsUsable :
    (raw : String) (params : PasswordHashParams)
    → parse_password_hash_params raw ≡ some params
    → IsUsable params
unfolding parse_password_hash_params
parse_password_hash_params-IsUsable raw params h =
    let (_, _, h₁) = bind_some (guard (eq_num (length (split b',' raw)) 3)) _ params h in
    let (q, parsed, h₂) = bind_some (read_params (split b',' raw) _) _ params h₁ in
    let (k, l) = read_params-lengths (split b',' raw) _ q parsed in positive q params k l h₂

guard-eq : (a b : ℕ) → guard (eq_num a b) ≡ some tt → a ≡ b
guard-eq a b h = ground arith

-- the two tests of parsePasswordHash on the decoded byte strings
measured :
    (params : PasswordHashParams) (salt hash : Bytes) (spec : ParsedPasswordHash)
    → IsUsable params
    → guard (eq_num (length salt) params.salt_len) ≡ some tt
    → (guard (eq_num (length hash) params.key_len)
        >> some (record { params = params; salt = salt; hash = hash }))
      ≡ some spec
    → IsUsable spec.params × (length spec.salt ≡ 16) × (length spec.hash ≡ 32)
measured params salt hash spec usable salted h =
    let (_, _, _, key_len, salt_len) = usable in
    let (_, keyed, h') = bind_some (guard (eq_num (length hash) params.key_len)) _ spec h in
    let same : record { params = params; salt = salt; hash = hash } ≡ spec = cc in
    subst (λ s. IsUsable s.params × (length s.salt ≡ 16) × (length s.hash ≡ 32)) same
      (
        usable,
        guard-eq (length salt) params.salt_len salted ∙ salt_len,
        guard-eq (length hash) params.key_len keyed ∙ key_len,
      )

module _ (prims : Primitives) where
  parsed_parts_sound :
      (parts : List String) (spec : ParsedPasswordHash)
      → parsed_parts prims parts ≡ some spec
      → IsUsable spec.params × (length spec.salt ≡ 16) × (length spec.hash ≡ 32)
  unfolding parsed_parts
  parsed_parts_sound (version ∷ algorithm ∷ raw ∷ salt_text ∷ hash_text ∷ []) spec h =
      let (_, _, h₁) = bind_some (guard (version == "v1" && algorithm == "argon2id")) _ spec h in
      let (params, parsed, h₂) = bind_some (parse_password_hash_params raw) _ spec h₁ in
      let (salt, _, h₃) = bind_some (prims.decode_string salt_text) _ spec h₂ in
      let (_, salted, h₄) = bind_some (guard (eq_num (length salt) params.salt_len)) _ spec h₃ in
      let (hash, _, h₅) = bind_some (prims.decode_string hash_text) _ spec h₄ in
      measured params salt hash spec (parse_password_hash_params-IsUsable raw params parsed) salted
        h₅
  parsed_parts_sound _ spec h = cc

  -- A text against which a password verifies holds positive costs, a salt of 16 bytes, and the
  -- Argon2id key of 32 bytes of that password for them: nothing shorter is ever compared.
  pub verify_password_ok :
      (password encoded : String)
      → verify_password prims password encoded ≡ true
      → (spec : ParsedPasswordHash) × (parse_password_hash prims encoded ≡ some spec)
        × IsUsable spec.params
        × (length spec.salt ≡ 16)
        × (spec.hash ≡ key_of prims password spec)
  unfolding verify_password
  verify_password_ok password encoded h = elim (Option-cases (parse_password_hash prims encoded)) [
    | inl refused ↦ absurd (ground arith)
    | inr (spec, parsed) ↦
        let (usable, salted, _) = parsed_parts_sound (split b'$' encoded) spec parsed in
        (spec, parsed, usable, salted, sym (constant_time_compare-eq _ spec.hash (ground arith)))
  ]
