-- ===== src/Examples/Passwords.antt =====
-- The theorems on stored passwords, at small functions in place of the packages' own.
use Prim.Native.Char.{code}
use dinchy.Prelude.{
  eq_num, ℕ, zero, suc, ◌+◌, ◌≡◌, refl, ap, ◌∙◌, String, Option, none, some, [], ◌∷◌, length, true,
  if◌then◌else◌, arith,
}
use dinchy.Security.{
  Bytes, Primitives, ParsedPasswordHash, default_password_hash_params, Lacks, encode_password_hash,
  hash_password, parse_password_hash, verify_password, key_of,
}
use dinchy.Security.RoundTrip.{parse-encode_password_hash, verify-hash_password}
use dinchy.Security.Accepted.{IsUsable, verify_password_ok}

abbrev zeros : ℕ → Bytes
zeros zero = []
zeros (suc n) = 0 ∷ zeros n

length-zeros : (n : ℕ) → length (zeros n) ≡ n
length-zeros zero = refl
length-zeros (suc n) = omega (arith, length-zeros n)

-- a byte as that many letters and a point
abbrev letters : ℕ → String → String
letters zero s = String.◌∷◌ "." s
letters (suc n) s = String.◌∷◌ "x" (letters n s)

abbrev spell : Bytes → String
spell [] = ""
spell (b ∷ bytes) = letters b (spell bytes)

abbrev counted : ℕ → Option Bytes → Option Bytes
counted n none = none
counted n (some bytes) = some (n ∷ bytes)

read_from : ℕ → String → Option Bytes
read_from n String.[] = some []
read_from n (String.◌∷◌ c s) =
    let ended = counted n (read_from 0 s) in
    let more = read_from (n + 1) s in if eq_num (code c) b'.' then ended else more

read_from-letters :
    (n b : ℕ) (s : String) → read_from n (letters b s) ≡ counted (n + b) (read_from 0 s)
unfolding read_from
read_from-letters n zero s = ap (λ m. counted m (read_from 0 s)) (omega arith)
read_from-letters n (suc b) s =
    read_from-letters (n + 1) b s ∙ ap (λ m. counted m (read_from 0 s)) (omega arith)

read-spell : (bytes : Bytes) → read_from 0 (spell bytes) ≡ some bytes
unfolding read_from
read-spell [] = refl
read-spell (b ∷ bytes) =
    let at_b : counted (0 + b) (read_from 0 (spell bytes)) ≡ counted b (read_from 0 (spell bytes)) =
      ap (λ n. counted n (read_from 0 (spell bytes))) (omega arith) in
    read_from-letters 0 b (spell bytes) ∙ at_b ∙ ap (counted b) (read-spell bytes)

letters-Lacks : (b : ℕ) (s : String) → Lacks b'$' s → Lacks b'$' (letters b s)
letters-Lacks zero s h = (refl, h)
letters-Lacks (suc b) s h = (refl, letters-Lacks b s h)

spell-Lacks : (bytes : Bytes) → Lacks b'$' (spell bytes)
spell-Lacks [] = tt
spell-Lacks (b ∷ bytes) = letters-Lacks b (spell bytes) (spell-Lacks bytes)

abbrev prims : Primitives
prims = record {
  id_key = λ password salt time memory threads key_len. zeros key_len;
  length-id_key = λ password salt time memory threads key_len. length-zeros key_len;
  encode_to_string = spell;
  decode_string = read_from 0;
  decode_string-encode_to_string = read-spell;
  encode_to_string-Lacks = spell-Lacks;
  rand_read = λ n draw. zeros n;
  length-rand_read = λ n draw. length-zeros n;
}

parse-encode_password_hash_example :
    parse_password_hash prims
      (encode_password_hash prims default_password_hash_params (zeros 16) (zeros 32))
    ≡ some (record { params = default_password_hash_params; salt = zeros 16; hash = zeros 32 })
parse-encode_password_hash_example =
    parse-encode_password_hash prims (zeros 16) (zeros 32) refl refl

verify-hash_password_example :
    verify_password prims "secret" (hash_password prims "draw" "secret") ≡ true
verify-hash_password_example = verify-hash_password prims "draw" "secret"

verify_password_ok_example :
    (spec : ParsedPasswordHash) × (parse_password_hash prims (hash_password prims "draw" "secret")
      ≡ some spec)
    × IsUsable spec.params
    × (length spec.salt ≡ 16)
    × (spec.hash ≡ key_of prims "secret" spec)
verify_password_ok_example =
    verify_password_ok prims "secret" (hash_password prims "draw" "secret")
      (verify-hash_password prims "draw" "secret")
