-- ===== src/WeightBundles/Members.antt =====
-- The members of a validated manifest.
use mathlib.Core.Path.{subst}
use clearml_yolo.Base.{
  ◌≡◌, sym, true, false, not, none, some, List, [], ◌∷◌, ◌++◌, String, ◌<>◌, str_eq, any, ok, All,
  arith, raise_if-eq-ok, >>=-eq-ok, ok-injective, eq_iff,
}
use clearml_yolo.WeightBundles.{
  BundleHub, BundleAsset, BundleManifest, repeats, archive_names, identities, has_member, directory,
  filename_of, members_of, add_members, check_reference, check_references, references,
}
use clearml_yolo.WeightBundles.Paths.{onto}

-- No key stands among those seen, nor twice.
abbrev pub IsFresh : List (String × String) → List (String × String) → Type 0
IsFresh seen [] = Unit
IsFresh seen (key ∷ keys) = (has_member key seen ≡ false) × IsFresh (key ∷ seen) keys

abbrev pub all_members : List BundleAsset → List (String × String)
all_members [] = []
all_members (asset ∷ assets) = members_of asset ++ all_members assets

IsFresh-append :
    (xs ys seen : List (String × String))
    → IsFresh seen xs
    → IsFresh (onto xs seen) ys
    → IsFresh seen (xs ++ ys)
IsFresh-append [] ys seen hx hy = hy
IsFresh-append (x ∷ xs) ys seen hx hy = (hx.0, IsFresh-append xs ys (x ∷ seen) hx.1 hy)

add_members-IsFresh :
    (keys seen : List (String × String)) {members : List (String × String)}
    → add_members seen keys ≡ ok members
    → IsFresh seen keys × (members ≡ onto keys seen)
unfolding add_members
add_members-IsFresh [] seen e = (tt, ok-injective (sym e))
add_members-IsFresh (key ∷ keys) seen e =
    let (fresh, rest) = raise_if-eq-ok (has_member key seen) _ _ e in
    let (others, same) = add_members-IsFresh keys (key ∷ seen) rest in ((fresh, others), same)

-- What the manifest says of an asset: its archive is listed, and its members have the names that its
-- identity gives them.
abbrev pub IsPlaced : List String → BundleAsset → Type 0
IsPlaced names asset =
    (any (str_eq asset.archive) names ≡ true)
    × (asset.member ≡ directory asset <> filename_of asset)
    × ((hub : BundleHub)
        → asset.hub ≡ some hub
        → hub.config.member ≡ directory asset <> "config.json")

config_placed :
    (asset : BundleAsset) (hub : BundleHub)
    → asset.hub ≡ some hub
    → (elim asset.hub [
      | none ↦ false
      | some hub ↦ not (str_eq hub.config.member (directory asset <> "config.json"))
    ])
      ≡ false
    → hub.config.member ≡ directory asset <> "config.json"
config_placed asset hub h configured =
    (eq_iff hub.config.member (directory asset <> "config.json")).0 (ground (arith, h, configured))

check_reference-IsPlaced :
    (names : List String) (seen : List (String × String)) (asset : BundleAsset)
    {members : List (String × String)}
    → check_reference names seen asset ≡ ok members
    → IsPlaced names asset × (add_members seen (members_of asset) ≡ ok members)
unfolding check_reference
check_reference-IsPlaced names seen asset e =
    let (listed, e₁) = raise_if-eq-ok (not (any (str_eq asset.archive) names)) _ _ e in
    let (placed, e₂) =
      raise_if-eq-ok (not (str_eq asset.member (directory asset <> filename_of asset))) _ _ e₁ in
    let (configured, e₃) = raise_if-eq-ok _ _ _ e₂ in
    (
      (
        ground (arith, listed),
        (eq_iff asset.member (directory asset <> filename_of asset)).0 (ground (arith, placed)),
        λ hub h. config_placed asset hub h configured,
      ),
      e₃,
    )

check_references-IsFresh :
    (names : List String) (assets : List BundleAsset) (seen : List (String × String))
    {members : List (String × String)}
    → check_references names seen assets ≡ ok members
    → All (IsPlaced names) assets × IsFresh seen (all_members assets)
unfolding check_references
check_references-IsFresh names [] seen e = (tt, tt)
check_references-IsFresh names (asset ∷ assets) seen e =
    let (members, first, rest) =
      >>=-eq-ok (check_reference names seen asset) (λ m. check_references names m assets) e in
    let (placed, added) = check_reference-IsPlaced names seen asset first in
    let (fresh, same) = add_members-IsFresh (members_of asset) seen added in
    let (others, later) = check_references-IsFresh names assets members rest in
    (
      (placed, others),
      IsFresh-append (members_of asset) (all_members assets) seen fresh
          (subst (λ m. IsFresh m (all_members assets)) same later),
    )

-- A manifest that passes is unchanged; its archives and its assets have different names, each asset
-- stands in a listed archive under the names that its identity gives, and no two members of the
-- assets have the same archive and path.
pub references-IsFresh :
    (manifest : BundleManifest) {manifest' : BundleManifest}
    → references manifest ≡ ok manifest'
    → (manifest' ≡ manifest)
      × (repeats (archive_names manifest.archives) ≡ false)
      × (repeats (identities manifest.assets) ≡ false)
      × All (IsPlaced (archive_names manifest.archives)) manifest.assets
      × IsFresh [] (all_members manifest.assets)
unfolding references
references-IsFresh manifest e =
    let (archives, e₁) = raise_if-eq-ok (repeats (archive_names manifest.archives)) _ _ e in
    let (assets, e₂) = raise_if-eq-ok (repeats (identities manifest.assets)) _ _ e₁ in
    let (members, checked, same) =
      >>=-eq-ok (check_references (archive_names manifest.archives) [] manifest.assets)
        (λ _. ok manifest) e₂ in
    let (placed, fresh) =
      check_references-IsFresh (archive_names manifest.archives) manifest.assets [] checked in
    (ok-injective (sym same), archives, assets, placed, fresh)
