-- ===== src/CallbackHandler/Oci.antt =====
-- src/callback_handler/oci.rs: what is read from registries.
use policy_evaluator.Prelude.{String, Option, Result, ok, ◌>>=◌, ◌<>◌}
use policy_evaluator.CallbackHandler.{Task, fresh, cached_or}

-- the crates oci_client and policy_fetcher, at the time of a call; their errors are texts
pub record Registry : Type 1 where
  pub Sources : Type 0
  pub Manifest : Type 0
  pub ImageManifest : Type 0
  pub Config : Type 0
  -- a parsed `Reference`, by its `whole`
  pub parse_reference : String → Result String String
  pub manifest_digest : String → Option Sources → Result String String
  pub manifest : String → Option Sources → Result String Manifest
  pub manifest_and_config :
      String → Option Sources → Result String (ImageManifest × String × Config)

module _ (registry : Registry) where
  pub record Client : Type 0 where
    pub sources : Option registry.Sources

  pub record ManifestAndConfigResponse : Type 0 where
    pub manifest : registry.ImageManifest
    pub digest : String
    pub config : registry.Config

  abbrev pub image_with_proto : String → Result String String
  image_with_proto image = do whole ← registry.parse_reference image; ok ("registry://" <> whole)

  unfoldable pub digest : Client → String → Result String String
  digest client image = do url ← image_with_proto image; registry.manifest_digest url client.sources

  unfoldable pub manifest_of : Client → String → Result String registry.Manifest
  manifest_of client image = do url ← image_with_proto image; registry.manifest url client.sources

  unfoldable pub manifest_and_config_of : Client → String → Result String ManifestAndConfigResponse
  manifest_and_config_of client image = do
    url ← image_with_proto image
    parts ← registry.manifest_and_config url client.sources
    ok (record { manifest = parts.0; digest = parts.1; config = parts.2 })

  -- The key of the caches is the image. `ManifestDigestResponse` has only the digest.
  unfoldable pub get_oci_digest_cached : (String → Option String) → Client → String → Task String
  get_oci_digest_cached cached client img = cached_or (cached img) (fresh (digest client img))

  unfoldable pub get_oci_manifest_cached :
      (String → Option registry.Manifest) → Client → String → Task registry.Manifest
  get_oci_manifest_cached cached client img =
      cached_or (cached img) (fresh (manifest_of client img))

  unfoldable pub get_oci_manifest_and_config_cached :
      (String → Option ManifestAndConfigResponse) → Client → String → Task ManifestAndConfigResponse
  get_oci_manifest_and_config_cached cached client img =
      cached_or (cached img) (fresh (manifest_and_config_of client img))
