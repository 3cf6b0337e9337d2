-- ===== src/WeightBundles.antt =====
-- core/weight_bundles.py: the validation of weight archives and of the manifest that lists them.
pub mod Paths
pub mod Members
mod Examples
use clearml_yolo.Base.{
  ℕ, ◌<◌, ◌%◌, Bool, true, false, ◌&&◌, ◌||◌, not, Option, none, some, List, [], ◌∷◌, ◌++◌, String,
  ltb, leb, ◌==◌, str_eq, codes, ◌<>◌, any, all, length, Result, ok, value_error, raise_if, ◌>>=◌,
  ◌>>◌, if◌then◌else◌,
}

-- `value.split(separator)` on code points: there is always a first part.
unfoldable pub split : ℕ → List ℕ → List (List ℕ)
split separator [] = [] ∷ []
split separator (c ∷ cs) =
    let rest = split separator cs in if c == separator then [] ∷ rest else onto c rest
  where
    onto : ℕ → List (List ℕ) → List (List ℕ)
    onto c [] = (c ∷ []) ∷ []
    onto c (part ∷ parts) = (c ∷ part) ∷ parts

abbrev pub has_code : ℕ → List ℕ → Bool
has_code c = any (λ d. d == c)

-- `part in {"", ".", ".."}`
abbrev pub is_special : List ℕ → Bool
is_special [] = true
is_special (c ∷ []) = c == b'.'
is_special (c ∷ d ∷ []) = (c == b'.') && (d == b'.')
is_special (_ ∷ _ ∷ _ ∷ _) = false

-- `PurePosixPath(value).is_absolute()`
abbrev pub is_absolute : List ℕ → Bool
is_absolute [] = false
is_absolute (c ∷ _) = c == b'/'

-- `safe_member`
unfoldable pub safe_member : String → Result String
unfolding split
safe_member value = do
  raise_if
      (str_eq value ""
        || has_code 92 (codes value)
        || has_code b':' (codes value)
        || is_absolute (codes value)
        || any is_special (split b'/' (codes value)))
      (value_error "Unsafe bundle path")
  ok value

between : ℕ → ℕ → ℕ → Bool
between low high c = leb low c && leb c high

is_hex : ℕ → Bool
unfolding between
is_hex c = between b'0' b'9' c || between b'a' b'f' c

-- A pattern of so many hexadecimal digits.
unfoldable pub is_hex_text : ℕ → String → Bool
unfolding is_hex
is_hex_text size value = (length (codes value) == size) && all is_hex (codes value)

abbrev pub is_digest : String → Bool
is_digest = is_hex_text 64

abbrev pub is_etag : String → Bool
is_etag value = is_hex_text 40 value || is_hex_text 64 value

is_alphanumeric : ℕ → Bool
unfolding between
is_alphanumeric c = between b'A' b'Z' c || between b'a' b'z' c || between b'0' b'9' c

-- `[A-Za-z0-9._-]`
is_name_code : ℕ → Bool
unfolding is_alphanumeric
is_name_code c = is_alphanumeric c || (c == b'.') || (c == b'_') || (c == b'-')

-- `[A-Za-z0-9][A-Za-z0-9._-]*`, and then a given end.
is_name : List ℕ → List ℕ → Bool
unfolding is_alphanumeric is_name_code
is_name end [] = false
is_name end (c ∷ cs) = is_alphanumeric c && ends_in end cs
  where
    same : List ℕ → List ℕ → Bool
    same [] [] = true
    same (a ∷ as') (b ∷ bs) = (a == b) && same as' bs
    same _ _ = false

    ends_in : List ℕ → List ℕ → Bool
    ends_in end [] = same end []
    ends_in end (c ∷ cs) = let rest = ends_in end cs in same end (c ∷ cs) || is_name_code c && rest

pub record BundleConfig : Type 0 where
  pub member : String
  pub size : ℕ
  pub sha256 : String
  pub etag : String

pub record BundleHub : Type 0 where
  pub repository : String
  pub revision : String
  pub commit : String
  pub filename : String
  pub etag : String
  pub config : BundleConfig

pub record BundleArchive : Type 0 where
  pub name : String
  pub size : ℕ
  pub sha256 : String

pub data AssetKind : Type 0 where
  weights deim_source : AssetKind

pub record BundleAsset : Type 0 where
  pub identity : String
  pub backend : String
  pub preset : String
  pub filename : String
  pub source_url : String
  pub source_revision : Option String
  pub kind : AssetKind
  pub archive : String
  pub member : String
  pub size : ℕ
  pub sha256 : String
  pub hub : Option BundleHub

pub record BundleManifest : Type 0 where
  pub release_tag : String
  pub archives : List BundleArchive
  pub assets : List BundleAsset

-- The validator of a field's type.
abbrev pub require : Bool → String → Result (Unit {0})
require test field = raise_if (not test) (value_error field)

-- `BundleConfig`
unfoldable pub check_config : BundleConfig → Result BundleConfig
unfolding safe_member is_hex_text
check_config config = do
  member ← safe_member config.member
  require (ltb 0 config.size) "size"
  require (is_digest config.sha256) "sha256"
  require (is_etag config.etag) "etag"
  ok config

-- `BundleHub`
unfoldable pub check_hub : BundleHub → Result BundleHub
unfolding check_config
check_hub hub = do
  repository ← safe_member hub.repository
  revision ← safe_member hub.revision
  require (is_hex_text 40 hub.commit) "commit"
  filename ← safe_member hub.filename
  require (is_etag hub.etag) "etag"
  config ← check_config hub.config
  ok hub

-- `BundleArchive`, whose size is below 2 GiB, with `archive_name`.
unfoldable pub check_archive : BundleArchive → Result BundleArchive
unfolding safe_member is_hex_text is_name
check_archive archive = do
  name ← safe_member archive.name
  raise_if (not (is_name (codes ".tar") (codes archive.name)))
      (value_error "Expected a single tar filename")
  require (ltb 0 archive.size && ltb archive.size 2147483648) "size"
  require (is_digest archive.sha256) "sha256"
  ok archive

-- `BundleAsset`
unfoldable pub check_asset : BundleAsset → Result BundleAsset
unfolding check_hub
check_asset asset = do
  require (is_hex_text 24 asset.identity) "identity"
  backend ← safe_member asset.backend
  preset ← safe_member asset.preset
  filename ← safe_member asset.filename
  member ← safe_member asset.member
  require (ltb 0 asset.size) "size"
  require (is_digest asset.sha256) "sha256"
  hub ← (elim asset.hub [ none ↦ ok (tt {0}) | some hub ↦ check_hub hub >>= λ _. ok tt ])
  ok asset

-- What follows a prefix.
abbrev after_prefix : List ℕ → List ℕ → Option (List ℕ)
after_prefix [] cs = some cs
after_prefix (p ∷ ps) [] = none
after_prefix (p ∷ ps) (c ∷ cs) = let rest = after_prefix ps cs in if p == c then rest else none

-- `release_name`
unfoldable pub release_name : String → Result String
unfolding is_name
release_name value = do
  raise_if
      (elim (after_prefix (codes "weights-") (codes value)) [
        | none ↦ true
        | some rest ↦ not (is_name [] rest)
      ])
      (value_error "Invalid immutable weights release tag")
  ok value

-- `len(set(values)) != len(values)`
unfoldable pub repeats : List String → Bool
repeats [] = false
repeats (value ∷ values) = any (str_eq value) values || repeats values

abbrev pub archive_names : List BundleArchive → List String
archive_names [] = []
archive_names (archive ∷ archives) = archive.name ∷ archive_names archives

abbrev pub identities : List BundleAsset → List String
identities [] = []
identities (asset ∷ assets) = asset.identity ∷ identities assets

abbrev pub has_member : String × String → List (String × String) → Bool
has_member key = any (λ other. str_eq other.0 key.0 && str_eq other.1 key.1)

-- The directory of an asset in its archive.
abbrev pub directory : BundleAsset → String
directory asset = "assets/" <> asset.identity <> "/"

abbrev pub filename_of : BundleAsset → String
filename_of asset = elim asset.hub [ none ↦ asset.filename | some hub ↦ hub.filename ]

-- The members of an asset, with their archive.
abbrev pub members_of : BundleAsset → List (String × String)
members_of asset = elim asset.hub [
  | none ↦ (asset.archive, asset.member) ∷ []
  | some hub ↦ (asset.archive, asset.member) ∷ (asset.archive, hub.config.member) ∷ []
]

-- The innermost loop of `references`: the members so far, with new ones.
unfoldable pub add_members :
    List (String × String) → List (String × String) → Result (List (String × String))
add_members members [] = ok members
add_members members (key ∷ keys) = do
  raise_if (has_member key members) (value_error "Duplicate bundle member")
  add_members (key ∷ members) keys

-- The checks of one asset in `references`.
unfoldable pub check_reference :
    List String → List (String × String) → BundleAsset → Result (List (String × String))
unfolding add_members
check_reference names members asset = do
  raise_if (not (any (str_eq asset.archive) names)) (value_error "Missing bundle archive")
  raise_if (not (str_eq asset.member (directory asset <> filename_of asset)))
      (value_error "Unexpected asset member")
  raise_if
      (elim asset.hub [
        | none ↦ false
        | some hub ↦ not (str_eq hub.config.member (directory asset <> "config.json"))
      ])
      (value_error "Unexpected config member")
  add_members members (members_of asset)

unfoldable pub check_references :
    List String → List (String × String) → List BundleAsset → Result (List (String × String))
unfolding check_reference
check_references names members [] = ok members
check_references names members (asset ∷ assets) = do
  members' ← check_reference names members asset
  check_references names members' assets

-- `references`
unfoldable pub references : BundleManifest → Result BundleManifest
unfolding repeats check_references
references manifest = do
  raise_if (repeats (archive_names manifest.archives)) (value_error "Duplicate bundle archive")
  raise_if (repeats (identities manifest.assets)) (value_error "Duplicate bundle asset")
  members ← check_references (archive_names manifest.archives) [] manifest.assets
  ok manifest
