-- ===== src/Config/Leaves.antt =====
-- The walk over the settings (env.go): it treats each field by itself and keeps the tree.
use dinchy.Prelude.{◌≡◌, refl, subst, List, [], ◌∷◌, ◌++◌, map}
use dinchy.Errors.{Result, ok, err}
use dinchy.Config.{
  Value, Tags, Setting, Settings, setting, group, no_settings, more, walk_setting, walk, ◌>>=◌,
}

-- the fields that are no structs, in order
unfoldable mutual
  pub fields_in : Setting → List (Tags × Value)
  fields_in (setting tags v) = (tags, v) ∷ []
  fields_in (group name settings) = leaves settings

  pub leaves : Settings → List (Tags × Value)
  leaves no_settings = []
  leaves (more s settings) = fields_in s ++ leaves settings

-- lists of the same length whose items are related
abbrev pub Zipped : {A B : Type 0} → (A → B → Type 0) → List A → List B → Type 0
Zipped R [] [] = Unit
Zipped R (x ∷ xs) (y ∷ ys) = R x y × Zipped R xs ys
Zipped R _ _ = ⊥

module _ {A B : Type 0} where
  Zipped-append :
      (R : A → B → Type 0) (xs xs' : List A) (ys ys' : List B)
      → Zipped R xs ys
      → Zipped R xs' ys'
      → Zipped R (xs ++ xs') (ys ++ ys')
  Zipped-append R [] xs' [] ys' h h' = h'
  Zipped-append R [] xs' (y ∷ ys) ys' h h' = elim h [ ]
  Zipped-append R (x ∷ xs) xs' [] ys' h h' = elim h [ ]
  Zipped-append R (x ∷ xs) xs' (y ∷ ys) ys' (hx, h) h' = (hx, Zipped-append R xs xs' ys ys' h h')

  pub Zipped-compose :
      {C : Type 0} (R : A → B → Type 0) (S : B → C → Type 0) (T : A → C → Type 0)
      → ((a : A) (b : B) (c : C) → R a b → S b c → T a c)
      → (xs : List A) (ys : List B) (zs : List C) → Zipped R xs ys
      → Zipped S ys zs
      → Zipped T xs zs
  Zipped-compose R S T f [] [] [] h h' = tt
  Zipped-compose R S T f [] [] (z ∷ zs) h h' = elim h' [ ]
  Zipped-compose R S T f [] (y ∷ ys) zs h h' = elim h [ ]
  Zipped-compose R S T f (x ∷ xs) [] zs h h' = elim h [ ]
  Zipped-compose R S T f (x ∷ xs) (y ∷ ys) [] h h' = elim h' [ ]
  Zipped-compose R S T f (x ∷ xs) (y ∷ ys) (z ∷ zs) (hx, h) (hy, h') =
      (f x y z hx hy, Zipped-compose R S T f xs ys zs h h')

  -- related items with the same image have lists with the same images
  pub Zipped-map :
      {C : Type 0} (R : A → B → Type 0) (f : A → C) (g : B → C)
      → ((a : A) (b : B) → R a b → f a ≡ g b)
      → (xs : List A) (ys : List B) → Zipped R xs ys
      → map f xs ≡ map g ys
  Zipped-map R f g same [] [] h = refl
  Zipped-map R f g same [] (y ∷ ys) h = elim h [ ]
  Zipped-map R f g same (x ∷ xs) [] h = elim h [ ]
  Zipped-map R f g same (x ∷ xs) (y ∷ ys) (hx, h) = cc (same x y hx, Zipped-map R f g same xs ys h)

-- a chain that succeeds has done each of its steps
pub bind_ok :
    {A B : Type 0} (m : Result A) (f : A → Result B) (b : B)
    → (m >>= f) ≡ ok b
    → (a : A) × (m ≡ ok a) × (f a ≡ ok b)
bind_ok (ok a) f b h = (a, refl, h)
bind_ok (err e) f b h = cc

-- what the walk has done to a field
abbrev pub Walked : (Tags → Value → Result Value) → Tags × Value → Tags × Value → Type 0
Walked f (t, v) (u, w) = (t ≡ u) × (f t v ≡ ok w)

mutual
  unfolding walk_setting walk fields_in leaves

  walk_setting-Zipped :
      (f : Tags → Value → Result Value) (s out : Setting)
      → walk_setting f s ≡ ok out
      → Zipped (Walked f) (fields_in s) (fields_in out)
  walk_setting-Zipped f (setting tags v) out h =
      let (w, done, h') = bind_ok (f tags v) _ out h in
      let made : setting tags w ≡ out = cc in
      subst (λ o. Zipped (Walked f) ((tags, v) ∷ []) (fields_in o)) made ((refl, done), tt)
  walk_setting-Zipped f (group name settings) out h =
      let (walked, done, h') = bind_ok (walk f settings) _ out h in
      let made : group name walked ≡ out = cc in
      subst (λ o. Zipped (Walked f) (leaves settings) (fields_in o)) made
        (walk-Zipped f settings walked done)

  -- Where the walk succeeds, the result has the same fields, and the step has done what it does to
  -- each of them.
  pub walk-Zipped :
      (f : Tags → Value → Result Value) (s out : Settings)
      → walk f s ≡ ok out
      → Zipped (Walked f) (leaves s) (leaves out)
  walk-Zipped f no_settings out h =
      let made : no_settings ≡ out = cc in subst (λ o. Zipped (Walked f) [] (leaves o)) made tt
  walk-Zipped f (more s settings) out h =
      let (first, here, h₁) = bind_ok (walk_setting f s) _ out h in
      let (rest, there, h₂) = bind_ok (walk f settings) _ out h₁ in
      let made : more first rest ≡ out = cc in
      subst (λ o. Zipped (Walked f) (fields_in s ++ leaves settings) (leaves o)) made
        (Zipped-append (Walked f) (fields_in s) (leaves settings) (fields_in first) (leaves rest)
          (walk_setting-Zipped f s first here) (walk-Zipped f settings rest there))
