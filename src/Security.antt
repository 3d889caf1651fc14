-- ===== src/Security.antt =====
-- internal/foundation/security/password.go and hash_params.go: the text in which a password's hash
-- is stored. Argon2id, base64 and the system's randomness are `Primitives`, with the laws that
-- their packages document; texts are walked by character, and a byte string is a list of numbers.
pub mod Scanning
pub mod RoundTrip
pub mod Accepted
use Prim.Native.Char.{Char, code}
use Prim.Native.String.{char_at}
use dinchy.Prelude.{
  eq_num, push, split, cat, ◌>>=◌, ◌>>◌, guard, ℕ, zero, suc, ◌+◌, ◌*◌, ◌-◌, ◌^◌, ◌%◌, ◌/◌, ◌≡◌,
  String, Bool, true, false, not, ◌&&◌, ◌||◌, Option, none, some, List, [], ◌∷◌, ltb, length, ◌==◌,
  if◌then◌else◌,
}

abbrev pub Bytes : Type 0
Bytes = List ℕ

-- PasswordHashParams
pub record PasswordHashParams : Type 0 where
  pub memory : ℕ
  pub time : ℕ
  pub threads : ℕ
  pub key_len : ℕ
  pub salt_len : ℕ

abbrev pub default_password_hash_params : PasswordHashParams
default_password_hash_params = record {
  memory = 64 * 1024;
  time = 2;
  threads = 4;
  key_len = 32;
  salt_len = 16;
}

-- parsedPasswordHash
pub record ParsedPasswordHash : Type 0 where
  pub params : PasswordHashParams
  pub salt : Bytes
  pub hash : Bytes

-- strings.SplitN(s, "=", 2) where it has two parts
abbrev pub in_front : Char → Option (String × String) → Option (String × String)
in_front c none = none
in_front c (some (a, b)) = some (String.◌∷◌ c a, b)

unfoldable pub split_pair : ℕ → String → Option (String × String)
split_pair sep String.[] = none
split_pair sep (String.◌∷◌ c s) =
    let rest = split_pair sep s in if eq_num (code c) sep then some ("", s) else in_front c rest

-- strconv.ParseUint(s, 10, 32)
unfoldable pub parse_digits : String → ℕ → Option ℕ
parse_digits String.[] n = some n
parse_digits (String.◌∷◌ c s) n =
    let m = n * 10 + (code c - b'0') in
    let rest = parse_digits s m in
    if ltb (code c) b'0' || ltb b'9' (code c)
    then none
    else if ltb (2 ^ 32 - 1) m
    then none
    else rest

unfoldable pub parse_uint32 : String → Option ℕ
unfolding parse_digits
parse_uint32 String.[] = none
parse_uint32 (String.◌∷◌ c s) = parse_digits (String.◌∷◌ c s) 0

-- one `key=value` of parsePasswordHashParams; uint8(v) keeps the low eight bits
unfoldable pub set_param : String → ℕ → PasswordHashParams → Option PasswordHashParams
set_param key v params =
    if key == "m"
    then some (record params { memory = v })
    else if key == "t"
    then some (record params { time = v })
    else if key == "p"
    then some (record params { threads = v % 2 ^ 8 })
    else none

unfoldable pub read_params : List String → PasswordHashParams → Option PasswordHashParams
unfolding split_pair parse_uint32 set_param
read_params [] params = some params
read_params (part ∷ parts) params = do
  kv ← split_pair b'=' part
  v ← parse_uint32 kv.1
  changed ← set_param kv.0 v params
  read_params parts changed

unfoldable pub parse_password_hash_params : String → Option PasswordHashParams
unfolding split read_params
parse_password_hash_params raw = do
  let parts = split b',' raw
  guard (eq_num (length parts) 3)
  params ← read_params parts (record {
    memory = 0;
    time = 0;
    threads = 0;
    key_len = default_password_hash_params.key_len;
    salt_len = default_password_hash_params.salt_len;
  })
  guard (not (eq_num params.memory 0 || eq_num params.time 0 || eq_num params.threads 0))
  some params

abbrev pub Lacks : ℕ → String → Type 0
Lacks sep String.[] = Unit
Lacks sep (String.◌∷◌ c s) = (eq_num (code c) sep ≡ false) × Lacks sep s

-- golang.org/x/crypto/argon2, encoding/base64 (RawStdEncoding) and crypto/rand, where `draw` names
-- one reading of the system's randomness
pub record Primitives : Type 0 where
  pub id_key : String → Bytes → ℕ → ℕ → ℕ → ℕ → Bytes
  pub length-id_key :
      (password : String) (salt : Bytes) (time memory threads key_len : ℕ)
      → length (id_key password salt time memory threads key_len) ≡ key_len
  pub encode_to_string : Bytes → String
  pub decode_string : String → Option Bytes
  pub decode_string-encode_to_string :
      (bytes : Bytes) → decode_string (encode_to_string bytes) ≡ some bytes
  pub encode_to_string-Lacks : (bytes : Bytes) → Lacks b'$' (encode_to_string bytes)
  pub rand_read : ℕ → String → Bytes
  pub length-rand_read : (n : ℕ) (draw : String) → length (rand_read n draw) ≡ n

-- subtle.ConstantTimeCompare
unfoldable pub constant_time_compare : Bytes → Bytes → Bool
constant_time_compare [] [] = true
constant_time_compare [] (y ∷ ys) = false
constant_time_compare (x ∷ xs) [] = false
constant_time_compare (x ∷ xs) (y ∷ ys) = eq_num x y && constant_time_compare xs ys

-- the verb %d of fmt, for a uint32, which has at most ten digits
abbrev digit : ℕ → Char
digit n = char_at "0123456789" n

unfoldable digits : ℕ → ℕ → String → String
digits zero n out = out
digits (suc rounds) n out =
    let shown = String.◌∷◌ (digit (n % 10)) out in
    let more = digits rounds (n / 10) shown in if ltb n 10 then shown else more

unfoldable pub decimal : ℕ → String
unfolding digits
decimal n = digits 10 n ""

-- the parts in front of the salt, each with its separator
unfoldable pub format_params : PasswordHashParams → String
unfolding decimal
format_params params = cat "v1$argon2id$m=" (
    cat (decimal params.memory)
      (cat ",t=" (cat (decimal params.time) (cat ",p=" (cat (decimal params.threads) "$")))))

module _ (prims : Primitives) where
  -- fmt.Sprintf of HashPassword
  unfoldable pub encode_password_hash : PasswordHashParams → Bytes → Bytes → String
  unfolding format_params
  encode_password_hash params salt sum =
      cat (format_params params)
        (cat (prims.encode_to_string salt) (cat "$" (prims.encode_to_string sum)))

  -- HashPassword
  unfoldable pub hash_password : String → String → String
  unfolding encode_password_hash
  hash_password draw password =
      let params = default_password_hash_params in
      let salt = prims.rand_read params.salt_len draw in
      encode_password_hash params salt
        (prims.id_key password salt params.time params.memory params.threads params.key_len)

  -- the end of parsePasswordHash, at the five parts
  unfoldable pub parsed_parts : List String → Option ParsedPasswordHash
  unfolding parse_password_hash_params
  parsed_parts (version ∷ algorithm ∷ raw ∷ salt_text ∷ hash_text ∷ []) = do
    guard (version == "v1" && algorithm == "argon2id")
    params ← parse_password_hash_params raw
    salt ← prims.decode_string salt_text
    guard (eq_num (length salt) params.salt_len)
    hash ← prims.decode_string hash_text
    guard (eq_num (length hash) params.key_len)
    some (record { params = params; salt = salt; hash = hash })
  parsed_parts _ = none

  -- parsePasswordHash
  unfoldable pub parse_password_hash : String → Option ParsedPasswordHash
  unfolding split parsed_parts
  parse_password_hash encoded = parsed_parts (split b'$' encoded)

  abbrev pub key_of : String → ParsedPasswordHash → Bytes
  key_of password spec =
      prims.id_key password spec.salt spec.params.time spec.params.memory spec.params.threads
        spec.params.key_len

  -- VerifyPassword
  unfoldable pub verify_password : String → String → Bool
  unfolding parse_password_hash constant_time_compare
  verify_password password encoded = elim (parse_password_hash encoded) [
    | none ↦ false
    | some spec ↦ constant_time_compare (key_of password spec) spec.hash
  ]
