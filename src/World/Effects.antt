-- ===== src/World/Effects.antt =====
-- The effects. A statement, a cache command, a mail or an event may fail, and then changes nothing.
use dinchy.Prelude.{
  ℕ, ◌+◌, String, Bool, true, false, ◌&&◌, not, Option, none, some, List, [], ◌∷◌, ◌++◌, find, any,
  keep_if, ltb, ◌==◌, if◌then◌else◌,
}
use dinchy.Errors.{no_rows, failure, Result, ok, err}
use dinchy.Db.{Db}
use dinchy.World.{Env, World, CachedPrincipal, CacheItem, Content, Event}
use dinchy.World.Exec.{Exec}

abbrev pub tick : World → World
tick w = record w { step = w.step + 1 }

abbrev row_or_none {ℓ} : {A : Type ℓ} → Option A → Result A
row_or_none none = err no_rows
row_or_none (some a) = ok a

module _ (env : Env) where
  -- Clock.Now
  unfoldable pub clock_now : Exec ℕ
  clock_now w = let now = w.now + env.drift w.step in (ok now, record (tick w) { now = now })

  -- IDGenerator.New
  unfoldable pub generate_id : Exec String
  generate_id w = (ok (env.new_id w.step), tick w)

  -- security.RandomToken(32)
  unfoldable pub random_token : Exec String
  random_token w =
      if env.fault w.step then (err failure, tick w) else (ok (env.random w.step), tick w)

  -- totp.Generate: a new secret
  unfoldable pub generate_secret : Exec String
  generate_secret w =
      if env.fault w.step then (err failure, tick w) else (ok (env.totp_secret w.step), tick w)

  -- security.HashPassword draws its salt
  unfoldable pub hash_password : String → Exec String
  hash_password password w =
      if env.fault w.step
      then (err failure, tick w)
      else (ok (env.passwords.hash (env.random w.step) password), tick w)

  -- security.HashToken
  unfoldable pub hash_token : String → String
  hash_token raw = env.base64_url (env.sha256 raw)

  -- A SELECT of one row, or of the list of the rows.
  unfoldable pub select : {A : Type 0} → (Db → Option A) → Exec A
  select q w = if env.fault w.step then (err failure, tick w) else (row_or_none (q w.db), tick w)

  -- INSERT, UPDATE, DELETE; a constraint violation changes nothing.
  unfoldable pub statement : (Db → Option Db) → Exec (Unit {0})
  statement q w = if env.fault w.step then (err failure, tick w) else elim (q w.db) [
    | none ↦ (err failure, tick w)
    | some db ↦ (ok tt, record (tick w) { db = db })
  ]

  -- A transaction is the state before it, which a rollback brings back. A commit that fails has
  -- stored nothing, and a rollback that fails leaves the database to discard the transaction.
  unfoldable pub begin_tx : Exec Db
  begin_tx w = if env.fault w.step then (err failure, tick w) else (ok w.db, tick w)

  unfoldable pub rollback : Db → Exec (Unit {0})
  rollback before w =
      let w' = record (tick w) { db = before } in
      if env.fault w.step then (err failure, w') else (ok tt, w')

  unfoldable pub commit : Db → Exec (Unit {0})
  commit before w =
      if env.fault w.step then (err failure, record (tick w) { db = before }) else (ok tt, tick w)

  -- internal/platform/cache/entry.go over Redis, where an item is there until `gone_at`
  abbrev pub is_live : ℕ → String → CacheItem → Bool
  is_live now key i = i.key == key && ltb now i.gone_at

  unfoldable pub cache_get : String → Exec (Option CachedPrincipal)
  cache_get key w =
      if not env.cache_config.enabled
      then (ok none, w)
      else if env.fault w.step
      then (err failure, tick w)
      else elim (find (is_live w.now key) w.cache) [
        | none ↦ (ok none, tick w)
        | some i ↦ (ok (some i.value), tick w)
      ]

  abbrev pub without : String → List CacheItem → List CacheItem
  without key items = keep_if (λ i. not (i.key == key)) items

  -- Redis counts the lifetime from the time of its SET, which is later than that of the caller's
  -- clock: the time since then, also that of the statement before, passes here.
  unfoldable pub cache_set_with_ttl : String → CachedPrincipal → ℕ → Exec (Unit {0})
  cache_set_with_ttl key value ttl w =
      if not env.cache_config.enabled
      then (ok tt, w)
      else if env.fault w.step
      then (err failure, tick w)
      else let now = w.now + env.drift w.step in
        (
          ok tt,
          record (tick w) {
            now = now;
            cache = record { key = key; value = value; gone_at = now + ttl } ∷ without key w.cache;
          },
        )

  abbrev pub is_empty : List String → Bool
  is_empty [] = true
  is_empty (k ∷ ks) = false

  abbrev pub is_one_of : List String → String → Bool
  is_one_of keys k = any (λ j. j == k) keys

  unfoldable pub cache_delete : List String → Exec (Unit {0})
  cache_delete keys w =
      if not env.cache_config.enabled
      then (ok tt, w)
      else if is_empty keys
      then (ok tt, w)
      else if env.fault w.step
      then (err failure, tick w)
      else (ok tt, record (tick w) { cache = keep_if (λ i. not (is_one_of keys i.key)) w.cache })

  -- Mailer.Send
  unfoldable pub send_mail : String → Content → Exec (Unit {0})
  send_mail to content w = if env.fault w.step then (err failure, tick w) else (
    ok tt,
    record (tick w) { mails = w.mails ++ record { to = to; content = content } ∷ [] },
  )

  -- publishEvent; without a publisher nothing happens
  unfoldable pub publish_event : Event → Exec (Unit {0})
  publish_event event w =
      if not env.has_publisher
      then (ok tt, w)
      else if env.fault w.step
      then (err failure, tick w)
      else (ok tt, record (tick w) { events = w.events ++ event ∷ [] })
