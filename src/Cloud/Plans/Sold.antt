-- ===== src/Cloud/Plans/Sold.antt =====
-- That the plans that are shown are the plans that are sold (src/handlers/cloud_share.rs and
-- src/billing.rs).
use ponswarp_signaling_rs.Common.{ℕ, String, Option, some, ◌≡◌, string_eq}
use ponswarp_signaling_rs.Billing.Plans.{PaidPlan, payment, paid_plan}
use ponswarp_signaling_rs.Manifest.{EntitlementRecord}
use ponswarp_signaling_rs.Database.{PassRow}
use ponswarp_signaling_rs.Database.Passes.{new_pass, pass_entitlement}
use ponswarp_signaling_rs.Cloud.Plans.{CloudPlanLimit}

-- A checkout for the plan sells what is shown.
abbrev pub IsSold : CloudPlanLimit → Type 0
IsSold limit =
    (plan : PaidPlan) × (paid_plan limit.sku ≡ some plan)
    × (plan.sku ≡ limit.sku)
    × (plan.label ≡ limit.label)
    × (plan.price_krw ≡ limit.price_krw)
    × (plan.max_total_bytes ≡ limit.max_total_bytes)
    × (plan.max_file_bytes ≡ limit.max_file_bytes)
    × (plan.retention_seconds ≡ limit.retention_seconds)

-- What a token entitles to is what is shown.
abbrev pub Shows : CloudPlanLimit → EntitlementRecord → Type 0
Shows limit granted =
    (granted.sku ≡ limit.sku)
    × (granted.label ≡ limit.label)
    × (granted.max_total_bytes ≡ limit.max_total_bytes)
    × (granted.max_file_bytes ≡ limit.max_file_bytes)
    × (granted.retention_seconds ≡ limit.retention_seconds)
    × (granted.download_limit ≡ limit.download_limit)

-- Who pays for a pass, and when.
pub record Buyer : Type 0 where
  pub pass_id : String
  pub user_id : Option String
  pub email : Option String
  pub bought_at : ℕ

-- The pass that an order for the plan makes.
abbrev pub bought : Buyer → PaidPlan → PassRow
bought buyer plan = new_pass buyer.pass_id buyer.user_id (record {
  user_id = buyer.user_id;
  email = buyer.email;
  sku = plan.sku;
  max_total_bytes = plan.max_total_bytes;
  max_file_bytes = plan.max_file_bytes;
  retention_seconds = plan.retention_seconds;
  created_at = buyer.bought_at;
})

-- A pass is sold as it is shown, and entitles the buyer to what is shown.
abbrev pub IsPassSold : Buyer → CloudPlanLimit → Type 0
IsPassSold buyer limit =
    IsSold limit
    × ((plan : PaidPlan) × (paid_plan limit.sku ≡ some plan)
        × (plan.checkout_mode ≡ payment)
        × Shows limit (pass_entitlement (bought buyer plan)))
