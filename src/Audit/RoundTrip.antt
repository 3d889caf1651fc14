-- ===== src/Audit/RoundTrip.antt =====
-- Handle and List (audit_service.go): what was stored of an event is read back.
use dinchy.Prelude.{
  ℕ, String, ◌≡◌, refl, sym, ap, ◌∙◌, subst, some, Option, eq_iff, arith, Option-cases, ◌⊎◌, inl,
  inr,
}
use dinchy.Errors.{Result, ok, err}
use dinchy.Db.{AuditLogRow}
use dinchy.Events.{Record, EventCodec}
use dinchy.Audit.{
  nullable_text, text_of, marshal_map, unmarshal_map, parse_id, null_uuid, insert_params,
  log_from_row, then_result, row_of,
}

text_of-nullable_text : (value : String) → text_of (nullable_text value) ≡ value
text_of-nullable_text value = ground (arith, eq_iff value "")

then_ok :
    {A B : Type 0} (m : Result A) (f : A → Result B) (b : B)
    → then_result m f ≡ ok b
    → (a : A) × (m ≡ ok a) × (f a ≡ ok b)
then_ok (ok a) f b h = (a, refl, h)
then_ok (err e) f b h = cc

module _ (codec : EventCodec) where
  -- the identifiers of a record that the generator made are canonical
  abbrev pub IsCanonical : String → Type 0
  IsCanonical value = codec.parse_uuid value ≡ some value

  unmarshal-marshal_map :
      (m : codec.Map) (t : String) → marshal_map codec m ≡ ok t → unmarshal_map codec t ≡ ok m
  unfolding marshal_map unmarshal_map
  unmarshal-marshal_map m t h = elim (Option-cases (codec.marshal m)) [
    | inl failed ↦ absurd (ground arith)
    | inr (u, made) ↦
        ground (arith, codec.unmarshal-marshal m t, codec.marshal-ne-empty m t, eq_iff t "")
  ]

  text_of-null_uuid :
      (value : String) (u : Option String)
      → (value ≡ "") ⊎ IsCanonical value
      → null_uuid codec value ≡ ok u
      → text_of u ≡ value
  unfolding null_uuid parse_id
  text_of-null_uuid value u (inl empty) h = ground (arith, eq_iff value "")
  text_of-null_uuid value u (inr canonical) h = ground (arith, eq_iff value "")

  insert_params-cases :
      (event : Record codec.Map) (created_at : ℕ) (row : AuditLogRow)
      → insert_params codec event created_at ≡ ok row
      → (metadata : String) × (changes : String) × (id : String) × (actor : Option String)
        × (organization : Option String) × (marshal_map codec event.metadata ≡ ok metadata)
        × (marshal_map codec event.changes ≡ ok changes)
        × (parse_id codec event.id ≡ ok id)
        × (null_uuid codec event.actor_user_id ≡ ok actor)
        × (null_uuid codec event.actor_organization_id ≡ ok organization)
        × (ok (row_of codec event metadata changes id actor organization created_at) ≡ ok row)
  unfolding insert_params
  insert_params-cases event created_at row h =
      let (metadata, m, h₁) = then_ok (marshal_map codec event.metadata) _ row h in
      let (changes, c, h₂) = then_ok (marshal_map codec event.changes) _ row h₁ in
      let (id, i, h₃) = then_ok (parse_id codec event.id) _ row h₂ in
      let (actor, a, h₄) = then_ok (null_uuid codec event.actor_user_id) _ row h₃ in
      let (organization, o, h₅) = then_ok (null_uuid codec event.actor_organization_id) _ row h₄ in
      (metadata, changes, id, actor, organization, m, c, i, a, o, h₅)

  read_back :
      (event : Record codec.Map) (created_at : ℕ) (metadata changes : String)
      (actor organization : Option String)
      → unmarshal_map codec metadata ≡ ok event.metadata
      → unmarshal_map codec changes ≡ ok event.changes
      → text_of actor ≡ event.actor_user_id
      → text_of organization ≡ event.actor_organization_id
      → log_from_row codec
          (row_of codec event metadata changes event.id actor organization created_at)
        ≡ ok (record event { created_at = some created_at })
  unfolding log_from_row
  read_back event created_at metadata changes actor organization m c a o = rw (
    m,
    c,
    a,
    o,
    text_of-nullable_text event.request_id,
    text_of-nullable_text event.trace_id,
    text_of-nullable_text event.span_id,
  )

  parsed : (value id : String) → IsCanonical value → parse_id codec value ≡ ok id → id ≡ value
  unfolding parse_id
  parsed value id canonical h = ground arith

  pub insert_params-id :
      (event : Record codec.Map) (created_at : ℕ) (row : AuditLogRow)
      → IsCanonical event.id
      → insert_params codec event created_at ≡ ok row
      → row.id ≡ event.id
  insert_params-id event created_at row canonical h =
      let (metadata, changes, id, a, o, _, _, i, _, _, made) =
        insert_params-cases event created_at row h in
      let same_id = parsed event.id id canonical i in
      let same : row_of codec event metadata changes id a o created_at ≡ row = cc made in
      sym (ap (λ r. r.id) same) ∙ same_id

  -- A record whose identifiers are canonical UUIDs, those of its actor possibly empty, is read back
  -- from the row that Handle stores for it, at the time that Handle stored.
  pub log_from_row-insert_params :
      (event : Record codec.Map) (created_at : ℕ) (row : AuditLogRow)
      → IsCanonical event.id
      → (event.actor_user_id ≡ "") ⊎ IsCanonical event.actor_user_id
      → (event.actor_organization_id ≡ "") ⊎ IsCanonical event.actor_organization_id
      → insert_params codec event created_at ≡ ok row
      → log_from_row codec row ≡ ok (record event { created_at = some created_at })
  log_from_row-insert_params event created_at row canonical actor organization h =
      let (metadata, changes, id, a, o, m, c, i, found, found', made) =
        insert_params-cases event created_at row h in
      let back =
        read_back event created_at metadata changes a o
          (unmarshal-marshal_map event.metadata metadata m)
          (unmarshal-marshal_map event.changes changes c)
          (text_of-null_uuid event.actor_user_id a actor found)
          (text_of-null_uuid event.actor_organization_id o organization found') in
      let same_id = parsed event.id id canonical i in
      let same : row_of codec event metadata changes event.id a o created_at ≡ row =
        cc (same_id, made) in
      subst (λ r. log_from_row codec r ≡ ok (record event { created_at = some created_at })) same
        back
