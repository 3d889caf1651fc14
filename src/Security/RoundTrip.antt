-- ===== src/Security/RoundTrip.antt =====
-- HashPassword and VerifyPassword (password.go): a text that was issued is read back.
use dinchy.Prelude.{split, push, ◌*◌, String, ◌≡◌, refl, true, some, [], ◌∷◌, length}
use dinchy.World.{PasswordHasher}
use dinchy.Security.{
  Bytes, Primitives, default_password_hash_params, encode_password_hash, hash_password,
  parse_password_hash_params, parsed_parts, parse_password_hash, verify_password,
}
use dinchy.Security.Scanning.{split-cat_sep, split-whole, constant_time_compare_refl}

-- the parameters that HashPassword prints are read back
parse-default_params :
    parse_password_hash_params "m=65536,t=2,p=4" ≡ some default_password_hash_params
unfolding parse_password_hash_params
parse-default_params = refl

module _ (prims : Primitives) where
  split-encoded :
      (salt sum : Bytes)
      → split b'$' (encode_password_hash prims default_password_hash_params salt sum)
        ≡ "v1"
          ∷ "argon2id"
          ∷ "m=65536,t=2,p=4"
          ∷ prims.encode_to_string salt
          ∷ prims.encode_to_string sum
          ∷ []
  unfolding encode_password_hash split push
  split-encoded salt sum =
      rw
        (
          split-cat_sep (prims.encode_to_string salt) _ (prims.encode_to_string-Lacks salt),
          split-whole (prims.encode_to_string sum) (prims.encode_to_string-Lacks sum),
        )
        refl

  -- A stored text that was put together from the default parameters, a salt of 16 bytes and a key of
  -- 32 bytes is parsed back to these parameters, this salt and this key.
  pub parse-encode_password_hash :
      (salt sum : Bytes)
      → length salt ≡ default_password_hash_params.salt_len
      → length sum ≡ default_password_hash_params.key_len
      → parse_password_hash prims (encode_password_hash prims default_password_hash_params salt sum)
        ≡ some (record { params = default_password_hash_params; salt = salt; hash = sum })
  unfolding parse_password_hash parsed_parts
  parse-encode_password_hash salt sum hs hk = rw (
    split-encoded salt sum,
    prims.decode_string-encode_to_string salt,
    hs,
    prims.decode_string-encode_to_string sum,
    hk,
  )

  -- the text for a salt of the right length
  verify-encoded :
      (password : String) (salt : Bytes)
      → length salt ≡ default_password_hash_params.salt_len
      → verify_password prims password (
          encode_password_hash prims default_password_hash_params salt
            (prims.id_key password salt 2 (64 * 1024) 4 32))
        ≡ true
  unfolding verify_password
  verify-encoded password salt hs =
      let sum = prims.id_key password salt 2 (64 * 1024) 4 32 in
      let measured = prims.length-id_key password salt 2 (64 * 1024) 4 32 in
      rw (verify_password, parse-encode_password_hash salt sum hs measured)
        (constant_time_compare_refl sum)

  -- A password verifies against the text that HashPassword issued for it, whatever salt was drawn.
  pub verify-hash_password :
      (draw password : String)
      → verify_password prims password (hash_password prims draw password) ≡ true
  unfolding verify_password hash_password
  verify-hash_password draw password =
      verify-encoded password (prims.rand_read default_password_hash_params.salt_len draw)
        (prims.length-rand_read default_password_hash_params.salt_len draw)

  -- what the services take as their hasher
  abbrev pub password_hasher : PasswordHasher
  password_hasher = record {
    hash = hash_password prims;
    verify = verify_password prims;
    verify-hash = verify-hash_password;
  }
