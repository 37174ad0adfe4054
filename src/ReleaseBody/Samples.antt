-- ===== src/ReleaseBody/Samples.antt =====
-- A release with one pull request.
use celestia_devtools.Prelude.{◌≡◌, refl, inl, some, List, [], ◌∷◌, ◌++◌, codes, rstrip, decimal}
use celestia_devtools.ReleaseNotes.{Section}
use celestia_devtools.ReleaseBody.{build_body}
use celestia_devtools.ReleaseBody.Links.{HasClosed, link, build_body-HasClosed}

abbrev sections : List Section
sections = ("Fixes", (12, codes "Fix it.") ∷ []) ∷ []

body :
    build_body (codes "o/r") (codes "v2") (some (codes "v1")) sections
    ≡ codes "## What's Changed\n\n### Fixes\n\n- [#12](https://github.com/o/r/pull/12) Fix it.\n\n"
      ++ codes "**Full Changelog**: https://github.com/o/r/compare/v1...v2\n"
unfolding build_body rstrip decimal
body = refl

build_body-HasClosed_example :
    HasClosed
      (link (codes "o/r") 12)
      (build_body (codes "o/r") (codes "v2") (some (codes "v1")) sections)
build_body-HasClosed_example =
    build_body-HasClosed (codes "o/r") (codes "v2") (some (codes "v1")) sections "Fixes"
      ((12, codes "Fix it.") ∷ []) 12 (codes "Fix it.") (inl refl) (inl refl)
