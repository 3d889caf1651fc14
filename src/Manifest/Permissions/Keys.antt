-- ===== src/Manifest/Permissions/Keys.antt =====
-- PermissionKey (permission.go): a key names one permission.
use Prim.Native.Char.{Char, code}
use dinchy.Prelude.{ℕ, String, ◌≡◌, refl, sym, ap, true, false, cat, arith}
use dinchy.Manifest.Permissions.{
  permission_key, is_excluded, contains_excluded, valid_permission_segment,
}

head_code : String → ℕ
head_code String.[] = 0
head_code (String.◌∷◌ c s) = code c

first_or : Char → String → Char
first_or d String.[] = d
first_or d (String.◌∷◌ c s) = c

rest_of : String → String
rest_of String.[] = ""
rest_of (String.◌∷◌ c s) = s

dot_excluded : (n : ℕ) → n ≡ b'.' → is_excluded n ≡ true
dot_excluded n h = ground arith

cut :
    (p q s t : String)
    → contains_excluded p ≡ false
    → contains_excluded q ≡ false
    → cat p (cat "." s) ≡ cat q (cat "." t)
    → (p ≡ q) × (s ≡ t)
unfolding head_code rest_of first_or
cut String.[] String.[] s t hp hq h = (refl, ap rest_of h)
cut String.[] (String.◌∷◌ d q) s t hp hq h =
    let at : b'.' ≡ code d = ap head_code h in
    let dot = dot_excluded (code d) (sym at) in absurd (ground arith)
cut (String.◌∷◌ c p) String.[] s t hp hq h =
    let at : code c ≡ b'.' = ap head_code h in
    let dot = dot_excluded (code c) at in absurd (ground arith)
cut (String.◌∷◌ c p) (String.◌∷◌ d q) s t hp hq h =
    let (same, after) = cut p q s t (ground arith) (ground arith) (ap rest_of h) in
    let first : c ≡ d = ap (first_or c) h in (cc, after)

segment_excludes : (s : String) → valid_permission_segment s ≡ true → contains_excluded s ≡ false
unfolding valid_permission_segment
segment_excludes s h = ground arith

-- The key of a permission with valid segments determines its module, resource and action.
pub permission_key-injective :
    (m r a m' r' a' : String)
    → (valid_permission_segment m ≡ true) × (valid_permission_segment r ≡ true)
    → (valid_permission_segment m' ≡ true) × (valid_permission_segment r' ≡ true)
    → permission_key m r a ≡ permission_key m' r' a'
    → (m ≡ m') × (r ≡ r') × (a ≡ a')
unfolding permission_key
permission_key-injective m r a m' r' a' (vm, vr) (vm', vr') same =
    let (modules, rest) =
      cut m m' (cat r (cat "." a)) (cat r' (cat "." a')) (segment_excludes m vm)
        (segment_excludes m' vm') same in
    let (resources, actions) =
      cut r r' a a' (segment_excludes r vr) (segment_excludes r' vr') rest in
    (modules, resources, actions)
