-- ===== src/Database/Users.antt =====
-- Users, recorded webhook events, and what the other statements share, of src/database.rs. The
-- identifier that a statement may make is its argument `fresh`.
use Prim.Native.Char.{code}
use ponswarp_signaling_rs.Common.{
  ℕ, String, Bool, true, false, ◌&&◌, ◌||◌, List, [], ◌∷◌, Option, none, some, leb, if◌then◌else◌,
  ◌==◌, string_eq,
}
use ponswarp_signaling_rs.Common.Map.{lookup, insert}
use ponswarp_signaling_rs.Common.NameSet
use ponswarp_signaling_rs.Common.Text.{◌<>◌, is_empty, trim}
use ponswarp_signaling_rs.Database.{Database}

-- Whether a column holds this text.
abbrev pub holds : Option String → String → Bool
holds none text = false
holds (some value) text = value == text

unfoldable pub normalize_email : String → Option String
normalize_email email = let trimmed = trim email in if is_empty trimmed then none else some trimmed

abbrev pub bind_option {ℓ κ} : {A : Type ℓ} {B : Type κ} → Option A → (A → Option B) → Option B
bind_option none f = none
bind_option (some a) f = f a

-- The user of an email, who is made where there is none.
unfoldable pub user_id_for_email :
    (fresh : String) → Option String → Database → Option String × Database
unfolding normalize_email
user_id_for_email fresh email db = elim (bind_option email normalize_email) [
  | none ↦ (none, db)
  | some address ↦ elim (lookup address db.users) [
    | some id ↦ (some id, db)
    | none ↦ (some fresh, record db { users = insert address fresh db.users })
  ]
]

abbrev pub is_ascii_alphanumeric : ℕ → Bool
is_ascii_alphanumeric c =
    (leb b'0' c && leb c b'9') || (leb b'A' c && leb c b'Z') || (leb b'a' c && leb c b'z')

unfoldable pub keep_alphanumeric : String → String
keep_alphanumeric String.[] = ""
keep_alphanumeric (String.◌∷◌ c s) =
    let rest = keep_alphanumeric s in
    if is_ascii_alphanumeric (code c) then String.◌∷◌ c rest else rest

unfoldable pub paypal_local_email : String → String
unfolding keep_alphanumeric
paypal_local_email id = "paypal+" <> keep_alphanumeric id <> "@ponswarp.local"

unfoldable pub lemonsqueezy_local_email : String → String
unfolding keep_alphanumeric
lemonsqueezy_local_email id = "lemonsqueezy+" <> keep_alphanumeric id <> "@ponswarp.local"

-- `INSERT … ON CONFLICT … DO UPDATE`, where `conflicts` finds the row in conflict.
unfoldable pub upsert {ℓ} : {R : Type ℓ} → (R → Bool) → (R → R) → R → List R → List R
upsert conflicts update made [] = made ∷ []
upsert conflicts update made (row ∷ rows) =
    if conflicts row then update row ∷ rows else row ∷ upsert conflicts update made rows

unfoldable pub find {ℓ} : {R : Type ℓ} → (R → Bool) → List R → Option R
find p [] = none
find p (row ∷ rows) = if p row then some row else find p rows

-- An event is recorded once; whether it was new is the result.
unfoldable pub try_record_paypal_event : (event_id : String) → Database → Bool × Database
try_record_paypal_event event_id db =
    if NameSet.contains event_id db.paypal_events
    then (false, db)
    else (true, record db { paypal_events = event_id ∷ db.paypal_events })

unfoldable pub try_record_lemonsqueezy_event : (event_id : String) → Database → Bool × Database
try_record_lemonsqueezy_event event_id db =
    if NameSet.contains event_id db.lemonsqueezy_events
    then (false, db)
    else (true, record db { lemonsqueezy_events = event_id ∷ db.lemonsqueezy_events })
