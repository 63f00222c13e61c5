-- ===== src/Mesh/Shares.antt =====
-- Share codes: making, resolving and revoking them, and what is asked through one, of src/mesh.rs.
use Prim.Native.Char.{Char, code}
use Prim.Native.String.{[], ◌∷◌}
use ponswarp_signaling_rs.Common.{
  ℕ, zero, suc, ◌+◌, ◌%◌, String, ◌&&◌, ◌||◌, not, List, [], ◌∷◌, leb, ◌==◌, Option, none, some,
  ltb, if◌then◌else◌, string_eq, pair_eq, unwrap_or, is_some, nat_beq, ◌≡◌, refl,
}
use ponswarp_signaling_rs.Common.Map.{Map, lookup, insert}
use ponswarp_signaling_rs.Common.Text.{◌<>◌, is_empty}
use ponswarp_signaling_rs.Mesh.Registry.{
  Json, MeshAvailability, Provider, MeshConfig, MeshEvent, MeshShare, MeshState, CreateShareRequest,
  ShareEventRequest, ok, not_found, gone, payload_too_large, error, error_at, share_providers,
  event, share, resolved, revoked, Reply, reply,
}
use ponswarp_signaling_rs.Mesh.Handlers.{
  max_mesh_json_bytes, u64_mod, at_least_one, given_or, mesh_disabled_response, workspace_exists,
  node_exists, file_exists,
}
use ponswarp_signaling_rs.Mesh.Publish.{json_size}

-- `to_uppercase` on a hexadecimal digit, as all characters of the text of a UUID are.
upper_digit : Char → Char
upper_digit c =
    if nat_beq (code c) b'a'
    then "A"
    else if nat_beq (code c) b'b'
    then "B"
    else if nat_beq (code c) b'c'
    then "C"
    else if nat_beq (code c) b'd'
    then "D"
    else if nat_beq (code c) b'e'
    then "E"
    else if nat_beq (code c) b'f'
    then "F"
    else c

-- `&raw[from..from + count].to_uppercase()`, on a text of ASCII characters.
upper_slice : ℕ → ℕ → String → String
upper_slice from count [] = []
upper_slice zero zero (c ∷ s) = []
upper_slice zero (suc count) (c ∷ s) = upper_digit c ∷ upper_slice zero count s
upper_slice (suc from) count (c ∷ s) = upper_slice from count s

-- `raw` is the hexadecimal text of a fresh UUID, without dashes.
unfoldable pub generate_share_code : (raw : String) → String
unfolding upper_slice upper_digit
generate_share_code raw = upper_slice 0 4 raw <> "-" <> upper_slice 4 4 raw

code_test : generate_share_code "0a1b2c3d4e5f60718293a4b5c6d7e8f9" ≡ "0A1B-2C3D"
unfolding generate_share_code ◌<>◌
code_test = refl

module _ {V : Type 0} where
  unfoldable pub active_share : ℕ → MeshState V → String → Option (MeshShare V)
  active_share now s share_code = elim (lookup share_code s.shares) [
    | none ↦ none
    | some found ↦ if is_some found.revoked_at || ltb found.expires_at now then none else some found
  ]

  unfoldable pub resolve_share : MeshConfig → ℕ → String → MeshState V → Reply V
  resolve_share config now share_code s =
      mesh_disabled_response config s (elim (lookup share_code s.shares) [
        | none ↦ reply not_found (error "share_not_found") s
        | some found ↦ elim found.revoked_at [
          | some revoked_at ↦ reply gone (error_at "share_revoked" revoked_at) s
          | none ↦
              if ltb found.expires_at now
              then reply gone (error_at "share_expired" found.expires_at) s
              else elim (lookup (found.workspace_id, found.file_id) s.files) [
                | none ↦ reply not_found (error "file_not_found") s
                | some file ↦ reply ok (resolved found file) s
              ]
        ]
      ])

  unfoldable pub revoke_share : MeshConfig → ℕ → String → MeshState V → Reply V
  revoke_share config now share_code s =
      mesh_disabled_response config s (elim (lookup share_code s.shares) [
        | none ↦ reply not_found (error "share_not_found") s
        | some found ↦ reply ok (revoked share_code now) (record s {
          shares = insert share_code (record found { revoked_at = some now }) s.shares;
        })
      ])

  -- The filter and the `filter_map` that the candidates of a share have for themselves.
  unfoldable pub collect_share_providers :
      ℕ
      → MeshState V
      → MeshShare V
      → Map (String × (String × String)) (MeshAvailability V)
      → List (Provider V)
  collect_share_providers now s found [] = []
  collect_share_providers now s found ((key, available) ∷ rest) =
      let others = collect_share_providers now s found rest in
      if key.0 == found.workspace_id && key.1.0 == found.file_id
      then elim (lookup (found.workspace_id, key.1.1) s.presence) [
        | none ↦ others
        | some presence ↦
            (let online = presence.online && leb now presence.expires_at in
              record {
                node_id = key.1.1;
                online = online;
                verified_ranges = available.verified_ranges;
                endpoint_hints = presence.endpoint_hints;
              }
              ∷ others)
      ]
      else others

  -- The clock is read once to see whether the share is active, and once for the presences.
  unfoldable pub share_candidates : MeshConfig → ℕ → ℕ → String → MeshState V → Reply V
  share_candidates config now later share_code s =
      mesh_disabled_response config s (elim (active_share now s share_code) [
        | none ↦ reply not_found (error "share_not_found_or_inactive") s
        | some found ↦
            reply ok
              (share_providers share_code found.file_id
                (collect_share_providers later s found s.availability))
              s
      ])

module _ (json : Json) where
  open json use {Value, share_payload}

  unfoldable pub create_share :
      MeshConfig
      → ℕ
      → (raw : String) → String
      → CreateShareRequest Value
      → MeshState Value
      → Reply Value
  create_share config now raw workspace_id req s = mesh_disabled_response config s (
      if not (workspace_exists s workspace_id)
      then reply not_found (error "workspace_not_found") s
      else if not (file_exists s workspace_id req.file_id)
      then reply not_found (error "file_not_found") s
      else (let node_id = unwrap_or req.created_by_node_id "" in
          if not (is_empty node_id) && not (node_exists s workspace_id node_id)
          then reply not_found (error "node_not_found") s
          else if ltb max_mesh_json_bytes (json_size json req.capabilities)
          then reply payload_too_large (error "share_too_large") s
          else (let share_code = given_or req.code (generate_share_code raw) in
              let made : MeshShare Value = record {
                code = share_code;
                workspace_id = workspace_id;
                file_id = req.file_id;
                created_by_node_id = node_id;
                expires_at = (now + at_least_one (unwrap_or req.ttl_seconds 86400)) % u64_mod;
                revoked_at = none;
                capabilities = req.capabilities;
                created_at = now;
              } in
              reply ok (share made) (record s { shares = insert share_code made s.shares }))))

  -- The clock is read once to see whether the share is active, and once for the event.
  unfoldable pub record_share_event :
      MeshConfig
      → ℕ
      → ℕ
      → (uuid : String) → String
      → ShareEventRequest Value
      → MeshState Value
      → Reply Value
  record_share_event config now later uuid share_code req s =
      mesh_disabled_response config s (elim (active_share now s share_code) [
        | none ↦ reply not_found (error "share_not_found_or_inactive") s
        | some found ↦
            if ltb max_mesh_json_bytes (json_size json req.payload)
            then reply payload_too_large (error "event_too_large") s
            else (let made : MeshEvent Value = record {
              event_id = uuid;
              workspace_id = found.workspace_id;
              event_type = req.event_type;
              payload = share_payload share_code req.payload;
              created_at = later;
            } in
                reply ok (event uuid) (record s { events = insert uuid made s.events }))
      ])
