-- ===== src/Mesh/Sharing.antt =====
-- The life of a share: made, resolved until it runs out or is revoked (src/mesh.rs).
pub mod Revoked
use ponswarp_signaling_rs.Common.{
  ℕ, ◌+◌, ◌<◌, ◌≤◌, ◌%◌, String, Bool, true, false, none, leb, string_eq, pair_eq, ◌≡◌, refl, arith,
  Option-cases, is_some, inl, inr, unwrap_or,
}
use ponswarp_signaling_rs.Common.Map.{lookup, contains_key, insert, lookup-insert_self}
use ponswarp_signaling_rs.Mesh.Handlers.{at_least_one, given_or, u64_mod, file_exists}
use ponswarp_signaling_rs.Mesh.Shares.{
  active_share, resolve_share, revoke_share, create_share, generate_share_code,
}
use ponswarp_signaling_rs.Mesh.Registry.{
  Json, MeshConfig, MeshState, MeshShare, CreateShareRequest, StatusCode, ok, gone,
}
use ponswarp_signaling_rs.Mesh.Integrity.{IsLinked}

abbrev pub is_ok : StatusCode → Bool
is_ok ok = true
is_ok _ = false

abbrev pub is_gone : StatusCode → Bool
is_gone gone = true
is_gone _ = false

-- The seconds that a request asks a share to live.
abbrev pub share_ttl : {V : Type 0} → CreateShareRequest V → ℕ
share_ttl req = at_least_one (unwrap_or req.ttl_seconds 86400)

module _ {V : Type 0} (config : MeshConfig) where
  -- Where no entry names a missing one and the coordinator is on, a code resolves exactly if its
  -- share is active: the file of an active share is always found.
  pub resolve_share-active_share :
      (now : ℕ) (c : String) (s : MeshState V)
      → config.enabled ≡ true
      → IsLinked s
      → is_ok (resolve_share config now c s).status ≡ is_some (active_share now s c)
  unfolding resolve_share active_share contains_key
  resolve_share-active_share now c s on h = elim (Option-cases (lookup c s.shares)) [
    | inl e ↦ ground (arith, e, on)
    | inr (found, e) ↦ ground (arith, e, on, (h.shares_linked c found e).0)
  ]

  -- Where the coordinator is on, a share that was there and is revoked is gone at any time:
  -- resolving it says so, and it is not active.
  pub revoke_share_lem :
      (now later : ℕ) (c : String) (s : MeshState V)
      → config.enabled ≡ true
      → contains_key c s.shares ≡ true
      → (is_gone (resolve_share config later c (revoke_share config now c s).state).status ≡ true)
        × (active_share later (revoke_share config now c s).state c ≡ none)
  unfolding contains_key revoke_share resolve_share active_share
  revoke_share_lem now later c s on there = elim (Option-cases (lookup c s.shares)) [
    | inl e ↦ ground (arith, e)
    | inr (found, e) ↦
        rw (revoke_share, on, e)
          (rw (resolve_share, active_share, lookup-insert_self c _ s.shares) (refl, refl))
  ]

module _ (json : Json) (config : MeshConfig) where
  -- The share that an accepted request stores.
  abbrev pub made_share : ℕ → String → String → CreateShareRequest json.Value → MeshShare json.Value
  made_share now c w req = record {
    code = c;
    workspace_id = w;
    file_id = req.file_id;
    created_by_node_id = unwrap_or req.created_by_node_id "";
    expires_at = (now + share_ttl req) % u64_mod;
    revoked_at = none;
    capabilities = req.capabilities;
    created_at = now;
  }

  create_share_stored :
      (now : ℕ) (raw w : String) (req : CreateShareRequest json.Value) (s : MeshState json.Value)
      → config.enabled ≡ true
      → (create_share json config now raw w req s).status ≡ ok
      → (file_exists s w req.file_id ≡ true)
        × ((create_share json config now raw w req s).state.files ≡ s.files)
        × ((create_share json config now raw w req s).state.shares
            ≡ insert
                (given_or req.code (generate_share_code raw))
                (made_share now (given_or req.code (generate_share_code raw)) w req)
                s.shares)
  unfolding create_share
  create_share_stored now raw w req s on accepted = ground arith

  -- A coordinator that is on and accepts a share, whose time and time to live do not overflow,
  -- resolves its code until `now + ttl` and not after, whatever the code stood for before.
  pub create_share_resolves :
      (now later : ℕ) (raw w : String) (req : CreateShareRequest json.Value)
      (s : MeshState json.Value)
      → config.enabled ≡ true
      → (create_share json config now raw w req s).status ≡ ok
      → now + share_ttl req < u64_mod
      → is_ok
          (resolve_share config later
            (given_or req.code (generate_share_code raw))
            (create_share json config now raw w req s).state).status
        ≡ leb later (now + share_ttl req)
  unfolding resolve_share file_exists contains_key
  create_share_resolves now later raw w req s on accepted small =
      elim (Option-cases (lookup (w, req.file_id) s.files)) [
        | inl e ↦ ground (arith, e, create_share_stored now raw w req s on accepted)
        | inr (found, e) ↦ ground (
          arith,
          e,
          on,
          small,
          create_share_stored now raw w req s on accepted,
          lookup-insert_self (given_or req.code (generate_share_code raw))
              (made_share now (given_or req.code (generate_share_code raw)) w req) s.shares,
        )
      ]

  -- Where the coordinator is on and accepts a share whose time and time to live, each within 64
  -- bits, overflow together, the share is inactive from the moment it is made.
  pub create_share_overflows :
      (now later : ℕ) (raw w : String) (req : CreateShareRequest json.Value)
      (s : MeshState json.Value)
      → config.enabled ≡ true
      → (create_share json config now raw w req s).status ≡ ok
      → now < u64_mod
      → share_ttl req < u64_mod
      → u64_mod ≤ now + share_ttl req
      → now ≤ later
      → active_share later
          (create_share json config now raw w req s).state
          (given_or req.code (generate_share_code raw))
        ≡ none
  unfolding active_share
  create_share_overflows now later raw w req s on accepted now_fits ttl_fits over after = ground (
    arith,
    create_share_stored now raw w req s on accepted,
    lookup-insert_self (given_or req.code (generate_share_code raw))
        (made_share now (given_or req.code (generate_share_code raw)) w req) s.shares,
  )
