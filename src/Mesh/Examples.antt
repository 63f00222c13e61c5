-- ===== src/Mesh/Examples.antt =====
-- The theorems on the mesh coordinator at a workspace with a node, a file and a share.
use ponswarp_signaling_rs.Common.{
  ℕ, ◌+◌, String, Bool, true, List, [], ◌∷◌, Option, none, some, ◌≡◌, refl, arith, leb, string_eq,
  pair_eq,
}
use ponswarp_signaling_rs.Common.Map.{lookup, contains_key, insert}
use ponswarp_signaling_rs.Common.Text.{is_empty, trim}
use ponswarp_signaling_rs.Mesh.{
  revoke_share, Request, create_workspace, register_node, heartbeat, publish_file, create_share,
  handle, serve,
}
use ponswarp_signaling_rs.Mesh.Handlers
use ponswarp_signaling_rs.Mesh.Publish
use ponswarp_signaling_rs.Mesh.Shares
use ponswarp_signaling_rs.Mesh.Registry.{
  Json, MeshConfig, MeshState, MeshShare, CreateShareRequest, HeartbeatRequest, PublishFileRequest,
  file, ok, empty_state,
}
use ponswarp_signaling_rs.Mesh.Integrity.{IsLinked}
use ponswarp_signaling_rs.Mesh.Integrity.Runs.{serve-IsLinked}
use ponswarp_signaling_rs.Mesh.Sharing.{
  is_ok, is_gone, revoke_share_lem, create_share_resolves, create_share_overflows,
}
use ponswarp_signaling_rs.Mesh.Providers.{providers_of, share_candidates-candidates}
use ponswarp_signaling_rs.Mesh.Sharing.Revoked.{is_revoked, serve-is_revoked}
use ponswarp_signaling_rs.Mesh.RoundTrip.{get_file-publish_file}

-- Every field is there, and is its own name as a text and 7 as a number.
abbrev sample_json : Json
sample_json = record {
  Value = String;
  get = λ value key. some key;
  as_str = λ value. some value;
  as_u64 = λ value. some 7;
  as_bool = λ value. some true;
  byte_count = λ value. some 2;
  empty_array = "[]";
  share_payload = λ c payload. payload;
}

abbrev config_with : Bool → MeshConfig
config_with enabled = record {
  enabled = enabled;
  auto_approve_nodes = true;
  presence_ttl_seconds = 30;
}

abbrev sample_share : Option ℕ → CreateShareRequest String
sample_share ttl = record {
  code = some "CODE";
  file_id = "fileId";
  created_by_node_id = some "nodeId";
  ttl_seconds = ttl;
  capabilities = "{}";
}

abbrev sample_beat : HeartbeatRequest String
sample_beat = record {
  status = some "online";
  endpoint_hints = "[]";
  load = "{}";
  ttl_seconds = none;
}

abbrev sample_file : PublishFileRequest String
sample_file = record { manifest = "{}"; availability = some "{}" }

abbrev setup_without_share : List (Request String)
setup_without_share =
    create_workspace 1 "u0" (record { workspace_id = some "ws"; name = "Shop" })
    ∷ heartbeat 3 "ws" "nodeId" sample_beat
    ∷ publish_file 4 4 "u1" "ws" sample_file
    ∷ []

abbrev setup : List (Request String)
setup =
    create_workspace 1 "u0" (record { workspace_id = some "ws"; name = "Shop" })
    ∷ register_node 2 "ws"
        (record { node_id = "nodeId"; display_name = "N"; public_key = "k"; capabilities = "{}" })
    ∷ heartbeat 3 "ws" "nodeId" sample_beat
    ∷ publish_file 4 4 "u1" "ws" sample_file
    ∷ create_share 5 "0a1b2c3d4e5f60718293a4b5c6d7e8f9" "ws" (sample_share (some 60))
    ∷ []

abbrev stocked : MeshState String
stocked = serve sample_json (config_with true) setup (empty_state String)

serve-IsLinked_example : IsLinked stocked
serve-IsLinked_example = serve-IsLinked sample_json (config_with true) setup

abbrev raw_uuid : String
raw_uuid = "0a1b2c3d4e5f60718293a4b5c6d7e8f9"

abbrev sample_made : MeshShare String
sample_made = record {
  code = "CODE";
  workspace_id = "ws";
  file_id = "fileId";
  created_by_node_id = "nodeId";
  expires_at = 65;
  revoked_at = none;
  capabilities = "{}";
  created_at = 5;
}

stocked_facts :
    (contains_key "CODE" stocked.shares ≡ true)
    × (Handlers.node_exists stocked "ws" "nodeId" ≡ true)
    × (Shares.active_share 65 stocked "CODE" ≡ some sample_made)
    × ((Publish.publish_file sample_json
          (config_with true)
          8
          8
          "u9"
          "ws"
          sample_file
          stocked).status
        ≡ ok)
    × ((ttl : Option ℕ)
        → (Shares.create_share sample_json
            (config_with true)
            5
            raw_uuid
            "ws"
            (sample_share ttl)
            stocked).status
          ≡ ok)
unfolding serve handle Handlers.create_workspace Handlers.register_node Handlers.heartbeat
    Publish.publish_file Shares.create_share Handlers.workspace_exists Handlers.node_exists
    Handlers.file_exists Publish.json_size Publish.string_field Publish.u64_field
    Publish.names_missing_node Publish.with_availability lookup contains_key insert is_empty trim
    Shares.active_share
stocked_facts = (refl, refl, refl, refl, λ ttl. refl)

revoke_share_lem_example :
    (is_gone
        (Shares.resolve_share
          (config_with true)
          9
          "CODE"
          (Shares.revoke_share (config_with true) 8 "CODE" stocked).state).status
      ≡ true)
    × (Shares.active_share 9 (Shares.revoke_share (config_with true) 8 "CODE" stocked).state "CODE"
        ≡ none)
revoke_share_lem_example =
    revoke_share_lem (config_with true) 8 9 "CODE" stocked refl stocked_facts.0

create_share_resolves_example :
    is_ok
      (Shares.resolve_share
        (config_with true)
        65
        (Handlers.given_or (some "CODE") (Shares.generate_share_code raw_uuid))
        (Shares.create_share sample_json
          (config_with true)
          5
          raw_uuid
          "ws"
          (sample_share (some 60))
          stocked).state).status
    ≡ leb 65 (5 + 60)
create_share_resolves_example =
    create_share_resolves sample_json (config_with true) 5 65 raw_uuid "ws" (sample_share (some 60))
      stocked refl (stocked_facts.4 (some 60)) (ground arith)

-- The largest time to live.
create_share_overflows_example :
    Shares.active_share 5
      (Shares.create_share sample_json
        (config_with true)
        5
        raw_uuid
        "ws"
        (sample_share (some 18446744073709551615))
        stocked).state
      (Handlers.given_or (some "CODE") (Shares.generate_share_code raw_uuid))
    ≡ none
create_share_overflows_example =
    create_share_overflows sample_json (config_with true) 5 5 raw_uuid "ws"
      (sample_share (some 18446744073709551615)) stocked refl
      (stocked_facts.4 (some 18446744073709551615)) (ground arith) (ground arith) (ground arith)
      (ground arith)

share_candidates-candidates_example :
    ((Shares.share_candidates (config_with true) 65 66 "CODE" stocked).status ≡ ok)
    × (providers_of (Shares.share_candidates (config_with true) 65 66 "CODE" stocked).body
        ≡ providers_of (Handlers.candidates (config_with true) 66 "ws" "fileId" stocked).body)
    × ((Handlers.candidates (config_with true) 66 "ws" "fileId" stocked).status ≡ ok)
share_candidates-candidates_example =
    share_candidates-candidates (config_with true) 65 66 "CODE" sample_made stocked refl
      (serve-IsLinked sample_json (config_with true) setup) stocked_facts.2

get_file-publish_file_example :
    ((Handlers.get_file
        (config_with true)
        "ws"
        "fileId"
        (Publish.publish_file sample_json
          (config_with true)
          8
          8
          "u9"
          "ws"
          sample_file
          stocked).state).status
      ≡ ok)
    × ((Handlers.get_file
          (config_with true)
          "ws"
          "fileId"
          (Publish.publish_file sample_json
            (config_with true)
            8
            8
            "u9"
            "ws"
            sample_file
            stocked).state).body
        ≡ file "fileId" "name" 7 7)
unfolding Publish.string_field Publish.u64_field
get_file-publish_file_example =
    get_file-publish_file sample_json (config_with true) 8 8 "u9" "ws" sample_file stocked refl
      stocked_facts.3

abbrev sample_revoked : MeshState String
sample_revoked = record (empty_state String) {
  shares = ("CODE", record sample_made { revoked_at = some 6 }) ∷ [];
}

serve-is_revoked_example :
    is_revoked "CODE" (
      serve sample_json
        (config_with true)
        (revoke_share 7 "CODE" ∷ setup_without_share)
        sample_revoked)
    ≡ true
unfolding lookup
serve-is_revoked_example =
    serve-is_revoked sample_json (config_with true) (revoke_share 7 "CODE" ∷ setup_without_share)
      "CODE" sample_revoked refl refl
