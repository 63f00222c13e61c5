-- ===== src/SignIn.antt =====
-- Where a sign-in returns to, of src/auth.rs.
mod Examples
use Prim.Native.Char.{code}
use Prim.Native.String.{[], ◌∷◌}
use ponswarp_signaling_rs.Common.{
  String, Bool, true, false, ◌&&◌, not, Option, none, some, nat_beq, if◌then◌else◌, ◌≡◌, refl,
  arith, Bool-cases, inl, inr,
}
use ponswarp_signaling_rs.Common.Text.{◌<>◌, is_empty, starts_with}

unfoldable pub safe_return_path : Option String → String
safe_return_path none = "/pricing"
safe_return_path (some path) =
    if starts_with "/" path && not (starts_with "//" path) then path else "/pricing"

-- `s.trim_end_matches('/')`.
unfoldable pub trim_end_slashes : String → String
trim_end_slashes [] = []
trim_end_slashes (c ∷ s) =
    let rest = trim_end_slashes s in if nat_beq (code c) b'/' && is_empty rest then [] else c ∷ rest

unfoldable pub app_return_url : (public_app_url return_path : String) → String
app_return_url public_app_url return_path =
    let base = trim_end_slashes public_app_url in
    if starts_with "/" return_path then base <> return_path else base <> "/" <> return_path

pricing_path : (starts_with "/" "/pricing" ≡ true) × (starts_with "//" "/pricing" ≡ false)
unfolding starts_with
pricing_path = (refl, refl)

safe_return_path_cases :
    (value : Option String)
    → (starts_with "/" (safe_return_path value) ≡ true)
      × (starts_with "//" (safe_return_path value) ≡ false)
unfolding safe_return_path
safe_return_path_cases none = pricing_path
safe_return_path_cases (some path) =
    elim (Bool-cases (starts_with "/" path && not (starts_with "//" path))) [
      | inl safe ↦ rw safe (ground (arith, safe))
      | inr unsafe ↦ rw unsafe pricing_path
    ]

safe_return_path-some :
    (path : String)
    → starts_with "/" path ≡ true
    → starts_with "//" path ≡ false
    → safe_return_path (some path) ≡ path
unfolding safe_return_path
safe_return_path-some path single not_double = rw (single, not_double) refl

-- Whatever a client asks to return to, the address it is sent to is the application's own
-- address without its last slashes, followed by a path with one slash in front; and a path that
-- has passed the test passes it again unchanged.
pub app_return_url-safe_return_path :
    (public_app_url : String) (value : Option String)
    → (app_return_url public_app_url (safe_return_path value)
        ≡ trim_end_slashes public_app_url <> safe_return_path value)
      × (starts_with "/" (safe_return_path value) ≡ true)
      × (starts_with "//" (safe_return_path value) ≡ false)
      × (safe_return_path (some (safe_return_path value)) ≡ safe_return_path value)
unfolding app_return_url
app_return_url-safe_return_path public_app_url value =
    let (single, not_double) = safe_return_path_cases value in
    (
      rw single refl,
      single,
      not_double,
      safe_return_path-some (safe_return_path value) single not_double,
    )
