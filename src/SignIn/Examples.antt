-- ===== src/SignIn/Examples.antt =====
-- The addresses that a sign-in returns to, at concrete requests.
use ponswarp_signaling_rs.Common.{true, false, none, some, ◌≡◌, refl}
use ponswarp_signaling_rs.Common.Text.{◌<>◌, is_empty, starts_with}
use ponswarp_signaling_rs.SignIn.{
  safe_return_path, trim_end_slashes, app_return_url, app_return_url-safe_return_path,
}

-- The cases of the program's own tests.
tests :
    (safe_return_path (some "/pricing?plan=pro") ≡ "/pricing?plan=pro")
    × (safe_return_path (some "https://evil.example") ≡ "/pricing")
    × (safe_return_path (some "//evil.example") ≡ "/pricing")
    × (safe_return_path none ≡ "/pricing")
    × (app_return_url "https://warp.ponslink.com/" "pricing" ≡ "https://warp.ponslink.com/pricing")
unfolding safe_return_path app_return_url trim_end_slashes ◌<>◌ starts_with is_empty
tests = (refl, refl, refl, refl, refl)

app_return_url-safe_return_path_example :
    (app_return_url "http://localhost:3500/" (safe_return_path (some "/pricing?plan=pro"))
      ≡ trim_end_slashes "http://localhost:3500/" <> safe_return_path (some "/pricing?plan=pro"))
    × (starts_with "/" (safe_return_path (some "/pricing?plan=pro")) ≡ true)
    × (starts_with "//" (safe_return_path (some "/pricing?plan=pro")) ≡ false)
    × (safe_return_path (some (safe_return_path (some "/pricing?plan=pro")))
        ≡ safe_return_path (some "/pricing?plan=pro"))
app_return_url-safe_return_path_example =
    app_return_url-safe_return_path "http://localhost:3500/" (some "/pricing?plan=pro")
