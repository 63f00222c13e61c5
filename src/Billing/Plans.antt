-- ===== src/Billing/Plans.antt =====
-- The plans that are sold, and the small texts of src/billing.rs.
use Prim.Native.Char.{code}
use Prim.Native.String.{[], ◌∷◌}
use ponswarp_signaling_rs.Common.{
  ℕ, ◌*◌, String, Bool, false, ◌||◌, Option, none, some, nat_beq, if◌then◌else◌, ◌==◌, string_eq,
}
use ponswarp_signaling_rs.Common.Text.{◌<>◌}

pub data CheckoutMode : Type 0 where
  payment subscription : CheckoutMode

pub record PaidPlan : Type 0 where
  pub sku : String
  pub label : String
  pub price_krw : ℕ
  pub max_total_bytes : ℕ
  pub max_file_bytes : ℕ
  pub retention_seconds : ℕ
  pub checkout_mode : CheckoutMode

abbrev pub gb : ℕ
gb = 1024 * 1024 * 1024

abbrev plan : String → String → ℕ → ℕ → ℕ → CheckoutMode → PaidPlan
plan sku label price_krw bytes days mode = record {
  sku = sku;
  label = label;
  price_krw = price_krw;
  max_total_bytes = bytes;
  max_file_bytes = bytes;
  retention_seconds = days * 24 * 60 * 60;
  checkout_mode = mode;
}

unfoldable pub paid_plan : String → Option PaidPlan
paid_plan sku =
    if sku == "drop_100gb_3d"
    then some (plan "drop_100gb_3d" "100GB Drop Pass" 1900 (100 * gb) 3 payment)
    else if sku == "drop_500gb_7d"
    then some (plan "drop_500gb_7d" "500GB Drop Pass" 4900 (500 * gb) 7 payment)
    else if sku == "drop_1tb_7d"
    then some (plan "drop_1tb_7d" "1TB Drop Pass" 9900 (1024 * gb) 7 payment)
    else if sku == "pro_monthly_krw_9900"
    then some (plan "pro_monthly_krw_9900" "PonsWarp Pro" 9900 (1024 * gb) 7 subscription)
    else none

unfoldable pub lemonsqueezy_subscription_status : String → String
lemonsqueezy_subscription_status status =
    if status == "active" || status == "on_trial" then "active" else "inactive"

unfoldable pub subscription_custom_id : (sku user_id : String) → String
subscription_custom_id sku user_id = sku <> "|" <> user_id

-- `s.split_once(c)`.
unfoldable pub split_once : ℕ → String → Option (String × String)
split_once c [] = none
split_once c (d ∷ s) =
    if nat_beq (code d) c
    then some ([], s)
    else elim (split_once c s) [ none ↦ none | some (l, r) ↦ some (d ∷ l, r) ]

-- `parse_uuid` is the parser of identifiers.
unfoldable pub parse_subscription_custom_id :
    (parse_uuid : String → Option String) → String → String × Option String
unfolding split_once
parse_subscription_custom_id parse_uuid value = elim (split_once b'|' value) [
  | none ↦ (value, none)
  | some (sku, user_id) ↦ (sku, parse_uuid user_id)
]

unfoldable pub contains_char : ℕ → String → Bool
contains_char c [] = false
contains_char c (d ∷ s) = nat_beq (code d) c || contains_char c s

unfoldable pub append_query : (url query : String) → String
unfolding contains_char
append_query url query = if contains_char b'?' url then url <> "&" <> query else url <> "?" <> query
