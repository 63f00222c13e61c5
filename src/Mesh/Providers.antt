-- ===== src/Mesh/Providers.antt =====
-- Who provides a file, as the two lists of candidates and the count show it (src/mesh.rs).
use ponswarp_signaling_rs.Common.{
  ℕ, suc, ◌+◌, ◌<◌, String, true, ◌&&◌, List, [], ◌∷◌, Option, none, some, leb, if◌then◌else◌,
  string_eq, pair_eq, ◌≡◌, refl, arith, Bool-cases, Option-cases, inl, inr, sym, unwrap_or,
}
use ponswarp_signaling_rs.Common.Map.{Map, lookup, lookup-insert_self}
use ponswarp_signaling_rs.Mesh.Handlers.{
  at_least_one, u64_mod, node_exists, file_exists, collect_providers, count_online,
  count_online_providers, online_now, says_online, heartbeat, candidates, is_of,
}
use ponswarp_signaling_rs.Mesh.Shares.{active_share, collect_share_providers, share_candidates}
use ponswarp_signaling_rs.Mesh.Registry.{
  MeshConfig, MeshState, MeshShare, MeshAvailability, HeartbeatRequest, Provider, Body, providers,
  share_providers, ok,
}
use ponswarp_signaling_rs.Mesh.Integrity.{IsLinked}

abbrev pub online_in : {V : Type 0} → List (Provider V) → ℕ
online_in [] = 0
online_in (p ∷ ps) = if p.online then suc (online_in ps) else online_in ps

abbrev pub providers_of : {V : Type 0} → Body V → Option (List (Provider V))
providers_of (providers f ps) = some ps
providers_of (share_providers c f ps) = some ps
providers_of _ = none

module _ {V : Type 0} where
  collect_providers-count_online :
      (now : ℕ) (s : MeshState V) (w f : String)
      (m : Map (String × (String × String)) (MeshAvailability V))
      → online_in (collect_providers now s w f m) ≡ count_online now s w f m
  unfolding collect_providers count_online
  collect_providers-count_online now s w f [] = refl
  collect_providers-count_online now s w f ((key, v) ∷ m) = elim (Bool-cases (is_of w f key)) [
    | inr other ↦
        rw (collect_providers, count_online, other) (collect_providers-count_online now s w f m)
    | inl same ↦ elim (Option-cases (lookup (w, key.1.1) s.presence)) [
      | inl e ↦
          rw (collect_providers, count_online, same, e) (collect_providers-count_online now s w f m)
      | inr (p, e) ↦
          rw (collect_providers, count_online, same, e)
            (ground (arith, collect_providers-count_online now s w f m))
    ]
  ]

  -- The count of the online providers that a listing of files shows is the number of the
  -- candidates of that file that are online, at the same time.
  pub count_online_providers-collect_providers :
      (now : ℕ) (s : MeshState V) (w f : String)
      → count_online_providers now s w f ≡ online_in (collect_providers now s w f s.availability)
  unfolding count_online_providers
  count_online_providers-collect_providers now s w f =
      sym (collect_providers-count_online now s w f s.availability)

  collect_share_providers-collect_providers :
      (now : ℕ) (s : MeshState V) (found : MeshShare V)
      (m : Map (String × (String × String)) (MeshAvailability V))
      → collect_share_providers now s found m
        ≡ collect_providers now s found.workspace_id found.file_id m
  unfolding collect_share_providers collect_providers
  collect_share_providers-collect_providers now s found [] = refl
  collect_share_providers-collect_providers now s found ((key, v) ∷ m) =
      let rest = collect_share_providers-collect_providers now s found m in
      elim (Bool-cases (is_of found.workspace_id found.file_id key)) [
        | inr other ↦ rw (collect_share_providers, collect_providers, other) rest
        | inl same ↦ elim (Option-cases (lookup (found.workspace_id, key.1.1) s.presence)) [
          | inl e ↦ rw (collect_share_providers, collect_providers, same, e) rest
          | inr (p, e) ↦ rw (collect_share_providers, collect_providers, same, e, rest)
        ]
      ]

  -- Where no entry names a missing one and the coordinator is on, whoever holds an active share
  -- gets by its code the very candidates that the workspace's own request for the file gets.
  pub share_candidates-candidates :
      (config : MeshConfig) (now later : ℕ) (c : String) (found : MeshShare V) (s : MeshState V)
      → config.enabled ≡ true
      → IsLinked s
      → active_share now s c ≡ some found
      → ((share_candidates config now later c s).status ≡ ok)
        × (providers_of (share_candidates config now later c s).body
            ≡ providers_of (candidates config later found.workspace_id found.file_id s).body)
        × ((candidates config later found.workspace_id found.file_id s).status ≡ ok)
  unfolding share_candidates candidates file_exists active_share
  share_candidates-candidates config now later c found s on h active = ground (
    arith,
    on,
    active,
    (h.shares_linked c found (ground (arith, active))).0,
    collect_share_providers-collect_providers later s found s.availability,
  )

  -- Where the coordinator is on, after a heartbeat of a registered node whose time and time to
  -- live do not overflow, the node counts as online exactly if the heartbeat said so and its time
  -- to live, of at least a second, is not over.
  pub heartbeat_online :
      (config : MeshConfig) (now later : ℕ) (w n : String) (req : HeartbeatRequest V)
      (s : MeshState V)
      → config.enabled ≡ true
      → node_exists s w n ≡ true
      → now + at_least_one (unwrap_or req.ttl_seconds config.presence_ttl_seconds) < u64_mod
      → online_now later (lookup (w, n) (heartbeat config now w n req s).state.presence) ≡ (
          says_online req.status
          && leb later (now + at_least_one (unwrap_or req.ttl_seconds config.presence_ttl_seconds)))
  unfolding heartbeat
  heartbeat_online config now later w n req s on there small =
      rw (heartbeat, on, there)
        (rw (lookup-insert_self (w, n) _ s.presence) (ground (arith, small)))
