-- ===== src/Tests/Git.antt =====
-- A repository on github.
use js_ng.Prelude.{◌≡◌, refl, str_eq, nat_eq, Str, str}
use js_ng.Prelude.Result.{ok, err, value_error}
use js_ng.Git.{Parsed, giturl_parse, get_path_from_url}

abbrev urlparse : Str → Parsed
urlparse s = record { scheme = str "https"; netloc = str "github.com"; path = str "/a/b" }

in_tree :
    giturl_parse (str "https://github.com/a/b/tree/master/docs/x.md")
    ≡ ok (str "https://github.com/a/b/", str "docs/x.md", str "master")
unfolding giturl_parse nat_eq str_eq
in_tree = refl

-- Another tree in the url
of_trees : giturl_parse (str "https://github.com/trees/b/tree/master") ≡ err value_error
unfolding giturl_parse nat_eq
of_trees = refl

in_code :
    get_path_from_url urlparse (str "/code") (str "git@github.com:a/b.git")
    ≡ ok (str "/code/github/a/b")
unfolding get_path_from_url nat_eq
in_code = refl
