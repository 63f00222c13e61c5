-- ===== src/Cloud/Policy/Accepted.antt =====
-- What is known of a request that is accepted (src/handlers/cloud_share.rs).
use ponswarp_signaling_rs.Common.{
  ℕ, suc, ◌+◌, ◌-◌, ◌*◌, ◌%◌, ◌^◌, ◌≤◌, ◌<◌, String, false, List, [], ◌∷◌, some, ltb, nat_beq,
  length, ◌≡◌, arith, All, Bool-cases, inl, inr,
}
use ponswarp_signaling_rs.Manifest.{EntitlementRecord}
use ponswarp_signaling_rs.Database.Passes.{saturating_add}
use ponswarp_signaling_rs.Database.Subscriptions.{cloud_usage_for_user}
use ponswarp_signaling_rs.Cloud.World.{Setting, World, ok}
use ponswarp_signaling_rs.Cloud.Policy.{
  CreateCloudFileRequest, CreateCloudShareRequest, ResolvedCloudPolicy, sum_sizes, total_size_of,
  any_file, validate_create_request, check_usage, enforce_paid_usage_limits,
}

-- The limits of a policy, on the sizes as they are.
pub record IsWithinPolicy (policy : ResolvedCloudPolicy) (files : List CreateCloudFileRequest)
    : Type 0 where
  pub some_files : 0 < length files
  pub few_files : length files ≤ policy.max_files
  pub total : sum_sizes files ≤ policy.max_total_bytes
  pub each :
      All
        (λ (file : CreateCloudFileRequest). (0 < file.size) × (file.size ≤ policy.max_file_bytes))
        files

each_file :
    (most : ℕ) (files : List CreateCloudFileRequest)
    → any_file (λ file. ltb most file.size) files ≡ false
    → any_file (λ file. nat_beq file.size 0) files ≡ false
    → All (λ (file : CreateCloudFileRequest). (0 < file.size) × (file.size ≤ most)) files
each_file most [] small nonempty = tt
each_file most (file ∷ files) small nonempty = elim (Bool-cases (ltb most file.size)) [
  | inl large ↦ absurd (ground (arith, small, large))
  | inr fits ↦ elim (Bool-cases (nat_beq file.size 0)) [
    | inl empty ↦ absurd (ground (arith, nonempty, empty))
    | inr more ↦ (
      (ground (arith, more), ground (arith, fits)),
      each_file most files (ground (arith, small, fits)) (ground (arith, nonempty, more)),
    )
  ]
]

-- Files that are not too large do not add up to more than there are of them.
sum_sizes_bound :
    (most : ℕ) (files : List CreateCloudFileRequest)
    → All (λ (file : CreateCloudFileRequest). (0 < file.size) × (file.size ≤ most)) files
    → sum_sizes files ≤ length files * most
unfolding sum_sizes
sum_sizes_bound most [] h = omega arith
sum_sizes_bound most (file ∷ files) ((_, fits), h) =
    let others = sum_sizes_bound most files h in grind (arith, others, fits)

no_wrap : (n m : ℕ) → n < 2 ^ 64 → n % 2 ^ 64 ≤ m → n ≤ m
no_wrap n m small h = omega arith

product_mono : (a b c : ℕ) → a ≤ b → a * c ≤ b * c
product_mono a b c h = grind arith

below : (a b : ℕ) → ltb b a ≡ false → a ≤ b
below a b h = ground arith

not_zero : (a : ℕ) → nat_beq a 0 ≡ false → 0 < a
not_zero a h = ground arith

chain : (a b c : ℕ) → a ≤ b → b ≤ c → c < 2 ^ 64 → a < 2 ^ 64
chain a b c h k l = omega arith

tests-IsWithinPolicy :
    (policy : ResolvedCloudPolicy) (files : List CreateCloudFileRequest)
    → policy.max_files * policy.max_file_bytes < 2 ^ 64
    → nat_beq (length files) 0 ≡ false
    → ltb policy.max_files (length files) ≡ false
    → ltb policy.max_total_bytes (total_size_of files) ≡ false
    → any_file (λ file. ltb policy.max_file_bytes file.size) files ≡ false
    → any_file (λ file. nat_beq file.size 0) files ≡ false
    → IsWithinPolicy policy files
tests-IsWithinPolicy policy files bounded nonempty few fits all_fit none_empty =
    let each = each_file policy.max_file_bytes files all_fit none_empty in
    let few_files = below (length files) policy.max_files few in
    let small =
      chain (sum_sizes files) (length files * policy.max_file_bytes)
        (policy.max_files * policy.max_file_bytes)
        (sum_sizes_bound policy.max_file_bytes files each)
        (product_mono (length files) policy.max_files policy.max_file_bytes few_files) bounded in
    record {
      some_files = not_zero (length files) nonempty;
      few_files = few_files;
      total =
          no_wrap (sum_sizes files) policy.max_total_bytes small
            (below (total_size_of files) policy.max_total_bytes fits);
      each = each;
    }

-- An accepted request has files, no more of them than the policy allows, each of them nonempty and
-- no larger than it allows, and together no larger. The sum is taken in 64 bits, so the limits on
-- the number and the size of files may not allow 2^64 bytes.
pub validate_create_request-IsWithinPolicy :
    (s : Setting) (policy : ResolvedCloudPolicy) (request : CreateCloudShareRequest) (w w' : World)
    → policy.max_files * policy.max_file_bytes < 2 ^ 64
    → validate_create_request s policy request w ≡ (ok tt, w')
    → IsWithinPolicy policy request.files
unfolding validate_create_request
validate_create_request-IsWithinPolicy s policy request w w' bounded e =
    elim (Bool-cases (nat_beq (length request.files) 0)) [
      | inl empty ↦ absurd (ground (arith, e, empty))
      | inr nonempty ↦ elim (Bool-cases (ltb policy.max_files (length request.files))) [
        | inl many ↦ absurd (ground (arith, e, nonempty, many))
        | inr few ↦ elim (Bool-cases (ltb policy.max_total_bytes (total_size_of request.files))) [
          | inl large ↦ absurd (ground (arith, e, nonempty, few, large))
          | inr fits ↦
              elim (Bool-cases
                (any_file (λ file. ltb policy.max_file_bytes file.size) request.files)) [
                  | inl one_large ↦ absurd (ground (arith, e, nonempty, few, fits, one_large))
                  | inr all_fit ↦
                      elim (Bool-cases (any_file (λ file. nat_beq file.size 0) request.files)) [
                        | inl one_empty ↦
                            absurd (ground (arith, e, nonempty, few, fits, all_fit, one_empty))
                        | inr none_empty ↦
                            tests-IsWithinPolicy policy request.files bounded nonempty few fits
                              all_fit none_empty
                      ]
                ]
        ]
      ]
    ]

saturating_add_within :
    (used requested quota : ℕ)
    → quota < 2 ^ 64 - 1
    → ltb quota (saturating_add used requested) ≡ false
    → used + requested ≤ quota
saturating_add_within used requested quota h e = ground arith

-- Where a request passes the limits of a plan that has both quotas, of less than 2^64 - 1 bytes, the
-- bytes completed in the last 30 days and the bytes reserved, with the request, are within them.
pub enforce_paid_usage_limits-ok :
    (s : Setting) (owner : String) (entitlement : EntitlementRecord)
    (requested quota concurrent : ℕ) (w w' : World)
    → entitlement.monthly_quota_bytes ≡ some quota
    → quota < 2 ^ 64 - 1
    → entitlement.concurrent_storage_bytes ≡ some concurrent
    → concurrent < 2 ^ 64 - 1
    → enforce_paid_usage_limits s owner entitlement requested w ≡ (ok tt, w')
    → ((cloud_usage_for_user owner
            (s.clock w.tick - 30 * 24 * 60 * 60)
            (s.clock w.tick)
            w.database).monthly_completed_bytes
          + requested
        ≤ quota)
      × ((cloud_usage_for_user owner
              (s.clock w.tick - 30 * 24 * 60 * 60)
              (s.clock w.tick)
              w.database).active_reserved_bytes
            + requested
          ≤ concurrent)
unfolding enforce_paid_usage_limits check_usage
enforce_paid_usage_limits-ok s owner entitlement requested quota concurrent w w' monthly m_small
      stored c_small e =
    let usage =
      cloud_usage_for_user owner (s.clock w.tick - 30 * 24 * 60 * 60) (s.clock w.tick) w.database in
    elim (Bool-cases (s.fails (suc w.tick))) [
      | inl broken ↦ absurd (ground (arith, e, monthly, stored, broken))
      | inr works ↦
          elim (Bool-cases (ltb quota (saturating_add usage.monthly_completed_bytes requested))) [
            | inl over ↦ absurd (ground (arith, e, monthly, stored, works, over))
            | inr under ↦
                elim (Bool-cases
                  (ltb concurrent (saturating_add usage.active_reserved_bytes requested))) [
                    | inl over ↦ absurd (ground (arith, e, monthly, stored, works, under, over))
                    | inr under' ↦ (
                      saturating_add_within usage.monthly_completed_bytes requested quota m_small
                          under,
                      saturating_add_within usage.active_reserved_bytes requested concurrent c_small
                          under',
                    )
                  ]
          ]
    ]
