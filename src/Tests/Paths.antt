-- ===== src/Tests/Paths.antt =====
-- internal/router/router.go: tests of `extractPath`, and its theorems at the URIs of its comment.
use icapmock.Prelude.{◌≡◌, refl, ◌++◌, inr, codes, index, index_byte, has_prefix}
use icapmock.Router.Paths.{strip_query, path_behind_host, extract_path}
use icapmock.Router.Paths.Parts.{extract_path-uri}

documented :
    (extract_path (codes "icap://localhost:1344/reqmod?preview=1") ≡ codes "/reqmod")
    × (extract_path (codes "icap://localhost:1344") ≡ codes "/")
    × (extract_path (codes "invalid-uri") ≡ codes "/invalid-uri")
unfolding extract_path path_behind_host strip_query index index_byte has_prefix
documented = (refl, refl, refl)

-- A slash in the query of a URI that has no path, or no scheme, is taken for the start of the path.
slash_in_query :
    (extract_path (codes "icap://h?x=/y") ≡ codes "/y")
    × (extract_path (codes "/redirect?u=http://x/y") ≡ codes "/y")
unfolding extract_path path_behind_host strip_query index index_byte has_prefix
slash_in_query = (refl, refl)

extract_path-uri_example :
    extract_path
      (codes "icap" ++ (codes "://" ++ (codes "h:1344" ++ (codes "/reqmod" ++ codes "?p=1"))))
    ≡ codes "/reqmod"
extract_path-uri_example =
    extract_path-uri (codes "icap") (codes "h:1344") (codes "reqmod") (codes "?p=1") refl refl refl
      refl refl refl (inr (codes "p=1", refl))
