-- ===== src/Cloud/World.antt =====
-- What the handlers of cloud shares work on, and how they fail: the calls of the database and of
-- the object store, the clock and the random texts, for src/handlers/cloud_share.rs.
--
-- Each call outside has a number, its `tick`; the setting says what the clock reads then, which
-- text is random then, and whether a call fails then. A call that fails changes nothing.
use ponswarp_signaling_rs.Common.{
  ℕ, suc, String, Bool, List, Option, none, some, if◌then◌else◌, ◌≡◌, refl, ◌⊎◌, inl, inr, arith,
  false,
}
use ponswarp_signaling_rs.Common.Map.{Map}
use ponswarp_signaling_rs.Manifest.{CloudFileManifest, CloudShareManifest}
use ponswarp_signaling_rs.Database.{Database}

pub data CloudShareError : Type 0 where
  bad_request not_found gone conflict forbidden : (message : String) → CloudShareError
  internal : CloudShareError

pub data Result (A : Type 0) : Type 0 where
  ok : A → Result A
  err : CloudShareError → Result A

-- The fields of the configuration that the handlers read; `prefix` is that of the store, which is
-- stripped of slashes.
pub record CloudConfig : Type 0 where
  pub prefix : String
  pub retention_seconds : ℕ
  pub upload_url_ttl_seconds : ℕ
  pub download_url_ttl_seconds : ℕ
  pub max_files : ℕ
  pub max_file_bytes : ℕ
  pub max_total_bytes : ℕ

-- `presigned` makes the address of a request for a key and a time to live, `assembled` says how
-- many bytes an upload of parts holds, `keyed_hmac` is the HMAC under the session secret,
-- `format_bytes` prints sizes by floating point, and `order_by` is the database's order of files.
pub record Setting : Type 0 where
  pub cloud : CloudConfig
  pub has_storage : Bool
  pub has_database : Bool
  pub clock : ℕ → ℕ
  pub random : ℕ → String
  pub fails : ℕ → Bool
  pub upload_ids : ℕ → Option String
  pub presigned : (request key : String) → (ttl_seconds : ℕ) → String
  pub assembled : (upload_id : String) → List (ℕ × String) → ℕ
  pub keyed_hmac : String → List ℕ
  pub format_bytes : ℕ → String
  pub order_by : List CloudFileManifest → List CloudFileManifest

-- The database, the manifests by their keys, and the sizes of the other objects by theirs.
pub record World : Type 0 where
  pub tick : ℕ
  pub database : Database
  pub manifests : Map String CloudShareManifest
  pub objects : Map String ℕ

abbrev pub Action : Type 0 → Type 0
Action A = World → Result A × World

module _ {A : Type 0} where
  abbrev pub pure : A → Action A
  pure a w = (ok a, w)

  abbrev pub raise : CloudShareError → Action A
  raise e w = (err e, w)

  abbrev pub or_raise : Option A → CloudShareError → Action A
  or_raise none e = raise e
  or_raise (some a) _ = pure a

infixl 5 ◌>>=◌ ◌>>◌
abbrev pub ◌>>=◌ : {A B : Type 0} → Action A → (A → Action B) → Action B
◌>>=◌ m f w = let (r, w') = m w in elim r [ ok a ↦ f a w' | err e ↦ raise e w' ]

-- A match on the result, with an action for each case.
abbrev pub after :
    {A B : Type 0} → Action A → (A → Action B) → (CloudShareError → Action B) → Action B
after m f g w = let (r, w') = m w in elim r [ ok a ↦ f a w' | err e ↦ g e w' ]

abbrev pub ◌>>◌ : {A B : Type 0} → Action A → Action B → Action B
m >> k = m >>= λ _. k

abbrev pub raise_if : Bool → CloudShareError → Action (Unit {0})
raise_if test e w = (if test then err e else ok tt, w)

-- `let _ = …`: the error is dropped.
abbrev pub ignore : {A : Type 0} → Action A → Action (Unit {0})
ignore m w = (ok tt, (m w).1)

module _ (s : Setting) where
  abbrev pub unix_now : Action ℕ
  unix_now w = (ok (s.clock w.tick), record w { tick = suc w.tick })

  abbrev pub random_text : Action String
  random_text w = (ok (s.random w.tick), record w { tick = suc w.tick })

  -- A call that may fail, and that otherwise does this.
  abbrev pub call : {A : Type 0} → (World → A × World) → Action A
  call f w =
      if s.fails w.tick
      then (err internal, record w { tick = suc w.tick })
      else (let (a, w') = f w in (ok a, record w' { tick = suc w.tick }))

  abbrev pub query : {A : Type 0} → (Database → A × Database) → Action A
  query f = call λ w. let (a, db) = f w.database in (a, record w { database = db })

  abbrev pub execute : (Database → Database) → Action (Unit {0})
  execute f = query λ db. (tt, f db)

  -- Where there is a database, this is done with it.
  abbrev pub with_database : Action (Unit {0}) → Action (Unit {0})
  with_database m = if s.has_database then m else pure tt

  abbrev pub cloud_storage : Action (Unit {0})
  cloud_storage =
      if s.has_storage then pure tt else raise (bad_request "Cloud share is not configured")

-- The two ways that an action ends.
pub Outcome-cases :
    {A : Type 0} (p : Result A × World)
    → ((a : A) × (w : World) × (p ≡ (ok a, w)))
      ⊎ ((e : CloudShareError) × (w : World) × (p ≡ (err e, w)))
Outcome-cases (ok a, w) = inl (a, w, refl)
Outcome-cases (err e, w) = inr (e, w, refl)

-- What comes of two steps, where they end well.
pub >>=-ok :
    {A B : Type 0} (m : Action A) (f : A → Action B) (w w' : World) (b : B)
    → (m >>= f) w ≡ (ok b, w')
    → (a : A) × (w1 : World) × (m w ≡ (ok a, w1)) × (f a w1 ≡ (ok b, w'))
>>=-ok m f w w' b e = elim (Outcome-cases (m w)) [
  | inl (a, w1, r) ↦ (a, w1, r, ground (arith, e, r))
  | inr (error, w1, r) ↦ absurd (ground (arith, e, r))
]

-- A step that is known to end well, taken.
pub >>=-step :
    {A B : Type 0} (m : Action A) (f : A → Action B) (w w1 : World) (a : A)
    → m w ≡ (ok a, w1)
    → (m >>= f) w ≡ f a w1
>>=-step m f w w1 a e = ground (arith, e)

pub after-step :
    {A B : Type 0} (m : Action A) (f : A → Action B) (g : CloudShareError → Action B) (w w1 : World)
    (a : A)
    → m w ≡ (ok a, w1)
    → after m f g w ≡ f a w1
after-step m f g w w1 a e = ground (arith, e)

pub call-ok :
    {A : Type 0} (s : Setting) (f : World → A × World) (w : World)
    → s.fails w.tick ≡ false
    → call s f w ≡ (ok (f w).0, record (f w).1 { tick = suc w.tick })
call-ok s f w e = ground (arith, e)
