-- ===== src/Cloud/Plans.antt =====
-- The plans that are shown, of `cloud_plans_response` in src/handlers/cloud_share.rs, and the
-- payment providers of src/billing.rs.
pub mod Sold
use ponswarp_signaling_rs.Common.{
  ℕ, ◌*◌, String, Bool, true, false, ◌||◌, List, [], ◌∷◌, Option, none, some, if◌then◌else◌,
}
use ponswarp_signaling_rs.Billing.Plans.{gb}
use ponswarp_signaling_rs.Cloud.World.{CloudConfig}

pub data CheckoutProvider : Type 0 where
  lemon_squeezy pay_pal : CheckoutProvider

pub record PaymentProviderStatus : Type 0 where
  pub provider : CheckoutProvider
  pub label : String
  pub available : Bool
  pub default : Bool

abbrev pub is_lemon_squeezy : CheckoutProvider → Bool
is_lemon_squeezy lemon_squeezy = true
is_lemon_squeezy pay_pal = false

unfoldable pub payment_providers :
    (default_provider : CheckoutProvider)
    → (has_lemonsqueezy has_paypal : Bool) → List PaymentProviderStatus
payment_providers default_provider has_lemonsqueezy has_paypal =
    record {
      provider = lemon_squeezy;
      label = "Lemon Squeezy";
      available = has_lemonsqueezy;
      default = is_lemon_squeezy default_provider;
    }
    ∷ record {
      provider = pay_pal;
      label = "PayPal";
      available = has_paypal;
      default = if is_lemon_squeezy default_provider then false else true;
    }
    ∷ []

pub record CloudPlanLimit : Type 0 where
  pub sku : String
  pub label : String
  pub price_krw : ℕ
  pub max_total_bytes : ℕ
  pub max_file_bytes : ℕ
  pub retention_seconds : ℕ
  pub download_limit : Option ℕ
  pub available : Bool

pub record DirectP2pPlan : Type 0 where
  pub label : String
  pub unlimited : Bool
  pub price_krw : ℕ

pub record ProPlan : Type 0 where
  pub limit : CloudPlanLimit
  pub monthly_quota_bytes : ℕ
  pub concurrent_storage_bytes : ℕ

pub record CloudPlansResponse : Type 0 where
  pub direct_p2p : DirectP2pPlan
  pub free : CloudPlanLimit
  pub passes : List CloudPlanLimit
  pub pro : ProPlan
  pub checkout_enabled : Bool
  pub payment_providers : List PaymentProviderStatus

unfoldable pub any_available : List PaymentProviderStatus → Bool
any_available [] = false
any_available (provider ∷ providers) = provider.available || any_available providers

-- Where billing is on and no provider is there, one is shown that is not available.
abbrev pub shown_providers :
    (billing_enabled : Bool) → List PaymentProviderStatus → List PaymentProviderStatus
shown_providers true [] =
    record { provider = lemon_squeezy; label = "Lemon Squeezy"; available = false; default = true }
    ∷ []
shown_providers _ providers = providers

abbrev paid :
    (sku label : String)
    → (price_krw bytes days downloads : ℕ) → (available : Bool) → CloudPlanLimit
paid sku label price_krw bytes days downloads available = record {
  sku = sku;
  label = label;
  price_krw = price_krw;
  max_total_bytes = bytes;
  max_file_bytes = bytes;
  retention_seconds = days * 24 * 60 * 60;
  download_limit = some downloads;
  available = available;
}

unfoldable pub cloud_plans_response :
    CloudConfig → (billing_enabled : Bool) → List PaymentProviderStatus → CloudPlansResponse
unfolding any_available
cloud_plans_response config billing_enabled given =
    let providers = shown_providers billing_enabled given in
    let checkout_enabled = any_available providers in
    record {
      direct_p2p = record { label = "Free Direct Send"; unlimited = true; price_krw = 0 };
      free = record {
        sku = "free_cloud_10gb_24h";
        label = "PonsWarp Free";
        price_krw = 0;
        max_total_bytes = config.max_total_bytes;
        max_file_bytes = config.max_file_bytes;
        retention_seconds = config.retention_seconds;
        download_limit = none;
        available = true;
      };
      passes =
          paid "drop_100gb_3d" "100GB Drop Pass" 1900 (100 * gb) 3 10 checkout_enabled
          ∷ paid "drop_500gb_7d" "500GB Drop Pass" 4900 (500 * gb) 7 20 checkout_enabled
          ∷ paid "drop_1tb_7d" "1TB Drop Pass" 9900 (1024 * gb) 7 30 checkout_enabled
          ∷ [];
      pro = record {
        limit = paid "pro_monthly_krw_9900" "PonsWarp Pro" 9900 (1024 * gb) 7 30 checkout_enabled;
        monthly_quota_bytes = 2 * (1024 * gb);
        concurrent_storage_bytes = 1024 * gb;
      };
      checkout_enabled = checkout_enabled;
      payment_providers = providers;
    }
