-- ===== src/Manifest/Resolved.antt =====
-- What a build for a declared platform, or for a misspelt one, gets.
use frostbuild.Base.{
  ok_injective, List, [], ◌∷◌, Option, some, none, refl, ok, err, ◌≡◌, ◌≢◌, ap, sym, subst, ◌∙◌,
  arith, inl, inr,
}
use frostbuild.Base.Text.{text_cases, Text, text_eq_iff, text_order}
use frostbuild.Base.BTreeMap.{
  BTreeMap, lookup, insert, IsSorted, lookup-nil, lookup-insert_self, lookup-insert_ne,
  lookup-Above, lookup-cons_self, lookup-cons_ne,
}
use frostbuild.Base.BTreeSet.{keys}
use frostbuild.Manifest.{Toolchain, Platform, Manifest, host_platform}
use frostbuild.Manifest.Closest.{closest}
use frostbuild.Manifest.Suggestion.{closest-Suggests, Suggests}
use frostbuild.Manifest.Platforms.{
  PlatformError, did_you_mean, declares_none, declared, extend, or_else, overlay, unknown_platform,
  toolchain_for,
}

lookup-extend :
    (k : Text) (m entries : BTreeMap Text Text)
    → IsSorted entries
    → lookup k (extend m entries) ≡ or_else (lookup k entries) (lookup k m)
lookup-extend k m [] s = sym (ap (λ o. or_else o (lookup k m)) (lookup-nil k))
lookup-extend k m ((j, v) ∷ entries) s =
    lookup-extend k (insert j v m) entries s.1 ∙ elim (text_cases k j) [
      | inl e ↦
          subst
            (λ k.
              or_else (lookup k entries) (lookup k (insert j v m))
              ≡ or_else (lookup k ((j, v) ∷ entries)) (lookup k m))
            (sym e)
            (ap (λ o. or_else o (lookup j (insert j v m))) (lookup-Above j entries s.0)
              ∙ lookup-insert_self j v m
              ∙ sym (ap (λ o. or_else o (lookup j m)) (lookup-cons_self j v entries)))
      | inr ne ↦
          ap (or_else (lookup k entries)) (lookup-insert_ne j k v m ne)
          ∙ sym (ap (λ o. or_else o (lookup k m)) (lookup-cons_ne j k v entries ne))
    ]

toolchain_for-declared :
    (m : Manifest) (platform : Text) (spec : Platform)
    → platform ≢ host_platform
    → lookup platform m.platforms ≡ some spec
    → toolchain_for m platform ≡ ok (overlay m.toolchain spec)
unfolding toolchain_for
toolchain_for-declared m platform spec ne found = ground (arith, text_eq_iff platform host_platform)

overlay-tools :
    (base : Toolchain) (spec : Platform) (tool : Text)
    → IsSorted spec.tools
    → lookup tool (overlay base spec).tools
      ≡ or_else (lookup tool spec.tools) (lookup tool base.tools)
unfolding overlay
overlay-tools base spec tool sorted = lookup-extend tool base.tools spec.tools sorted

-- What an error says of a platform that is none of the known ones.
abbrev pub Reports : Text → List Text → PlatformError → Type 0
Reports platform known (did_you_mean name hint) =
    (name ≡ platform) × Suggests platform known (some hint)
Reports platform known (declares_none name) = (name ≡ platform) × (known ≡ [])
Reports platform known (declared name names) =
    (name ≡ platform) × (names ≡ known) × (names ≢ []) × Suggests platform known none

unknown_platform-hint :
    (platform hint : Text) (known : List Text)
    → closest platform known ≡ some hint
    → unknown_platform platform known ≡ did_you_mean platform hint
unfolding unknown_platform
unknown_platform-hint platform hint known near = ground (arith, near)

unknown_platform-empty :
    (platform : Text)
    → closest platform [] ≡ none
    → unknown_platform platform [] ≡ declares_none platform
unfolding unknown_platform
unknown_platform-empty platform far = ground (arith, far)

unknown_platform-listed :
    (platform name : Text) (names : List Text)
    → closest platform (name ∷ names) ≡ none
    → unknown_platform platform (name ∷ names) ≡ declared platform (name ∷ names)
unfolding unknown_platform
unknown_platform-listed platform name names far = ground (arith, far)

unknown_platform-far :
    (platform : Text) (known : List Text)
    → closest platform known ≡ none
    → Reports platform known (unknown_platform platform known)
unknown_platform-far platform [] far =
    subst (Reports platform []) (sym (unknown_platform-empty platform far)) (refl, refl)
unknown_platform-far platform (name ∷ names) far =
    subst (Reports platform (name ∷ names)) (sym (unknown_platform-listed platform name names far))
      (
        refl,
        refl,
        (λ e. absurd (cc e)),
        subst (Suggests platform (name ∷ names)) far (closest-Suggests platform (name ∷ names)),
      )

unknown_platform-Reports :
    (platform : Text) (known : List Text) → Reports platform known (unknown_platform platform known)
unknown_platform-Reports platform known = go (closest platform known) refl
  where
    go :
        (o : Option Text)
        → closest platform known ≡ o
        → Reports platform known (unknown_platform platform known)
    go none far = unknown_platform-far platform known far
    go (some hint) near =
        subst (Reports platform known) (sym (unknown_platform-hint platform hint known near))
          (refl, subst (Suggests platform known) near (closest-Suggests platform known))

-- A platform's tool is the overlay's where it declares one, and else the root toolchain's; an
-- overlay's tools, read from a map, are in the order of their names.
pub toolchain_for-tools :
    (m : Manifest) (platform : Text) (spec : Platform) (resolved : Toolchain) (tool : Text)
    → platform ≢ host_platform
    → lookup platform m.platforms ≡ some spec
    → IsSorted spec.tools
    → toolchain_for m platform ≡ ok resolved
    → lookup tool resolved.tools ≡ or_else (lookup tool spec.tools) (lookup tool m.toolchain.tools)
toolchain_for-tools m platform spec resolved tool ne found sorted h =
    let run : ok (overlay m.toolchain spec) ≡ ok resolved =
      sym (toolchain_for-declared m platform spec ne found) ∙ h in
    ap (λ (t : Toolchain). lookup tool t.tools) (sym (ok_injective run))
    ∙ overlay-tools m.toolchain spec tool sorted

-- A build for a platform that is neither the host nor declared fails, and the error is the one for
-- that platform: it suggests a declared platform that is nearest among those within the bound on
-- misspellings, or it says that none is declared, where that is so, or it lists those that are
-- declared, where none is within the bound.
pub toolchain_for-unknown :
    (m : Manifest) (platform : Text)
    → platform ≢ host_platform
    → lookup platform m.platforms ≡ none
    → (e : PlatformError) × (toolchain_for m platform ≡ err e)
      × Reports platform (keys m.platforms) e
unfolding toolchain_for
toolchain_for-unknown m platform ne missing = (
  unknown_platform platform (keys m.platforms),
  ground (arith, text_eq_iff platform host_platform),
  unknown_platform-Reports platform (keys m.platforms),
)
