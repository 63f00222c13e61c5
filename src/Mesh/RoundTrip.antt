-- ===== src/Mesh/RoundTrip.antt =====
-- Publishing a file and asking for it (src/mesh.rs).
use ponswarp_signaling_rs.Common.{
  ℕ, String, true, Option, none, some, ltb, string_eq, pair_eq, ◌≡◌, refl, arith, Bool-cases, inl,
  inr, unwrap_or,
}
use ponswarp_signaling_rs.Common.Map.{lookup-insert_self}
use ponswarp_signaling_rs.Common.Text.{◌<>◌}
use ponswarp_signaling_rs.Mesh.Handlers.{get_file, workspace_exists, max_mesh_json_bytes}
use ponswarp_signaling_rs.Mesh.Publish.{
  publish_file, string_field, u64_field, json_size, names_missing_node, availability_node,
  with_availability,
}
use ponswarp_signaling_rs.Mesh.Registry.{Json, MeshConfig, MeshState, PublishFileRequest, file, ok}

module _ (json : Json) (config : MeshConfig) where
  -- The identifier of a published file: that of its manifest, or a fresh one.
  abbrev pub published_id : String → PublishFileRequest json.Value → String
  published_id uuid req = unwrap_or (string_field json req.manifest "fileId") ("file_" <> uuid)

  with_availability-files :
      (later : ℕ) (w f : String) (availability : Option json.Value) (n : Option String)
      (s : MeshState json.Value)
      → (with_availability json later w f availability n s).files ≡ s.files
  unfolding with_availability
  with_availability-files later w f none n s = refl
  with_availability-files later w f (some v) none s = refl
  with_availability-files later w f (some v) (some n) s = refl

  -- A file whose publication is accepted by a coordinator that is on can be asked for at once:
  -- the answer has the identifier of its manifest, or a fresh one, and its name, size and piece
  -- count, with the identifier and 0 where the manifest has none.
  pub get_file-publish_file :
      (now later : ℕ) (uuid w : String) (req : PublishFileRequest json.Value)
      (s : MeshState json.Value)
      → config.enabled ≡ true
      → (publish_file json config now later uuid w req s).status ≡ ok
      → ((get_file config w
            (published_id uuid req)
            (publish_file json config now later uuid w req s).state).status
          ≡ ok)
        × ((get_file config w
              (published_id uuid req)
              (publish_file json config now later uuid w req s).state).body
            ≡ file
                (published_id uuid req)
                (unwrap_or (string_field json req.manifest "name") (published_id uuid req))
                (unwrap_or (u64_field json req.manifest "size") 0)
                (unwrap_or (u64_field json req.manifest "pieceCount") 0))
  unfolding publish_file get_file
  get_file-publish_file now later uuid w req s on accepted =
      elim (Bool-cases (workspace_exists s w)) [
        | inr missing ↦ ground (arith, on, missing, accepted)
        | inl found ↦ elim (Bool-cases (ltb max_mesh_json_bytes (json_size json req.manifest))) [
          | inl large ↦ ground (arith, on, found, large, accepted)
          | inr small ↦
              elim (Bool-cases
                (names_missing_node json s w (availability_node json req.availability))) [
                  | inl stray ↦ ground (arith, on, found, small, stray, accepted)
                  | inr known ↦
                      rw (publish_file, on, found, small, known)
                        (rw
                          (
                            get_file,
                            with_availability-files later w (published_id uuid req) req.availability
                                (availability_node json req.availability) _,
                            lookup-insert_self (w, published_id uuid req) _ s.files,
                          )
                          (refl, refl))
                ]
        ]
      ]
