-- ===== src/WeightBundles/Examples.antt =====
-- A member and a manifest that pass, and the theorems on them.
use clearml_yolo.Base.{◌≡◌, refl, false, none, [], ◌∷◌, String, codes, ok, All, err, value_error}
use clearml_yolo.WeightBundles.{
  split, safe_member, weights, BundleAsset, BundleManifest, release_name, repeats, archive_names,
  identities, references,
}
use clearml_yolo.WeightBundles.Paths.{onto, resolve, safe_member-resolve}
use clearml_yolo.WeightBundles.Members.{IsFresh, all_members, IsPlaced, references-IsFresh}

safe_weights : safe_member "assets/ab/model.pt" ≡ ok "assets/ab/model.pt"
unfolding safe_member
safe_weights = refl

unsafe_parent : safe_member "assets/../model.pt" ≡ err (value_error "Unsafe bundle path")
unfolding safe_member
unsafe_parent = refl

abbrev path : String
path = "assets/ab/model.pt"

safe_member-resolve_example :
    (path ≡ path) × (resolve [] (split b'/' (codes path)) ≡ onto (split b'/' (codes path)) [])
safe_member-resolve_example = safe_member-resolve path [] safe_weights

asset : BundleAsset
asset = record {
  identity = "ab";
  backend = "deimv2";
  preset = "s";
  filename = "model.pt";
  source_url = "";
  source_revision = none;
  kind = weights;
  archive = "one.tar";
  member = "assets/ab/model.pt";
  size = 1;
  sha256 = "";
  hub = none;
}

manifest : BundleManifest
unfolding asset
manifest = record {
  release_tag = "weights-1";
  archives = record { name = "one.tar"; size = 1; sha256 = "" } ∷ [];
  assets = asset ∷ [];
}

release : release_name "weights-2026.1" ≡ ok "weights-2026.1"
unfolding release_name
release = refl

references-manifest : references manifest ≡ ok manifest
unfolding references manifest
references-manifest = refl

references-IsFresh_example :
    (manifest ≡ manifest)
    × (repeats (archive_names manifest.archives) ≡ false)
    × (repeats (identities manifest.assets) ≡ false)
    × All (IsPlaced (archive_names manifest.archives)) manifest.assets
    × IsFresh [] (all_members manifest.assets)
references-IsFresh_example = references-IsFresh manifest references-manifest
