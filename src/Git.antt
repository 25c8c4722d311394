-- ===== src/Git.antt =====
-- tools/git/__init__.py: urls of repositories, and the commands that keep them.
pub mod Urls
use js_ng.Prelude.{
  ℕ, zero, suc, ◌-◌, Bool, true, false, not, ◌&&◌, ◌||◌, Option, none, some, List, [], ◌∷◌, ◌++◌,
  ◌==◌, starts, nat_eq, str_eq, eqb, length, take, drop, if◌then◌else◌, Str, str,
}
use js_ng.Prelude.Result.{Result, ok, err, input_error, attribute_error, value_error, ◌>>=◌}
use js_ng.Text.{split, occurs_in, lstrip_by, rstrip_by}
use js_ng.Text.Decimal.{decimal}
use js_ng.Fs.{Disk, walk}

-- The netloc, up to the first colon or slash, and what is behind that
unfoldable pub netloc_of : Str → Option (Str × Str)
netloc_of [] = none
netloc_of (c ∷ s) =
    let rest = netloc_of s in
    if eqb c b':' || eqb c b'/'
    then some ([], s)
    else elim rest [ none ↦ none | some (netloc, path) ↦ some (c ∷ netloc, path) ]

-- (?P<path>.*?)/?$, without one slash at the end
unfoldable pub drop_slash : Str → Str
drop_slash [] = []
drop_slash (c ∷ []) = if eqb c b'/' then [] else c ∷ []
drop_slash (c ∷ d ∷ s) = c ∷ drop_slash (d ∷ s)

-- re.match(SSH_URL_MATCH, url), of a url on one line: its netloc and its path
unfoldable pub match_ssh : Str → Option (Str × Str)
unfolding starts nat_eq netloc_of drop_slash
match_ssh url =
    if starts (str "git@") url
    then elim (netloc_of (drop 4 url)) [
      | none ↦ none
      | some (netloc, path) ↦ some (netloc, drop_slash path)
    ]
    else none

-- What urlparse says of a url
pub record Parsed : Type 0 where
  pub scheme : Str
  pub netloc : Str
  pub path : Str

unfoldable pub rewrite_git_https_url_to_ssh : (Str → Parsed) → Str → Result Str
unfolding lstrip_by str_eq
rewrite_git_https_url_to_ssh urlparse url =
    let parsed = urlparse url in
    if parsed.scheme == str "https"
    then ok (
        str "git@"
        ++ (parsed.netloc ++ b':' ∷ (lstrip_by (λ c. eqb c b'/') parsed.path ++ str ".git")))
    else err input_error

-- The url with the login and the password, which are given or empty
unfoldable pub https_url : Str → Str → Str × Str → Result Str
https_url [] [] (netloc, path) = ok (str "https://" ++ (netloc ++ b'/' ∷ path))
https_url (c ∷ login) (d ∷ passwd) (netloc, path) =
    ok (str "https://" ++ ((c ∷ login) ++ b':' ∷ ((d ∷ passwd) ++ b'@' ∷ (netloc ++ b'/' ∷ path))))
https_url _ _ _ = err input_error

-- The groups are taken before the test whether there is a match.
abbrev pub https_of : Str → Str → Option (Str × Str) → Result Str
https_of login passwd none = err attribute_error
https_of login passwd (some groups) = https_url login passwd groups

unfoldable pub rewrite_git_ssh_url_to_https : Str → Str → Str → Result Str
unfolding match_ssh
rewrite_git_ssh_url_to_https url login passwd = https_of login passwd (match_ssh url)

-- s.split(t), of a text t that is not empty; so many characters are still of an occurrence.
unfoldable pub split_from : Str → ℕ → Str → List Str
unfolding starts nat_eq
split_from t k [] = [] ∷ []
split_from t (suc k) (c ∷ s) = split_from t k s
split_from t zero (c ∷ s) =
    let hit = starts t (c ∷ s) in
    let rest = split_from t (if hit then length (drop 1 t) else 0) s in
    if hit then [] ∷ rest else (elim rest [ [] ↦ (c ∷ []) ∷ [] | w ∷ ws ↦ (c ∷ w) ∷ ws ])

-- The end of a text without .git
unfoldable pub without_git : Str → Str
unfolding str_eq
without_git s = if drop (length s - 4) s == str ".git" then take (length s - 4) s else s

-- The branch and the path in what follows tree or blob
unfoldable pub branch_and_path : Str → Str × Str
unfolding lstrip_by rstrip_by without_git split
branch_and_path url_end =
    let inner = rstrip_by (λ c. eqb c b'/') (lstrip_by (λ c. eqb c b'/') url_end) in
    elim (split b'/' inner) as (λ _. Str × Str) [
      | branch ∷ part ∷ parts ↦ (branch, without_git (drop (suc (length branch)) inner))
      | _ ↦ (without_git inner, [])
    ]

-- The two parts of the url; more cannot be unpacked.
unfoldable pub cut_at : Str → Str → Result (Str × Str)
unfolding split_from
cut_at word url = elim (split_from word 0 url) as (λ _. Result (Str × Str)) [
  | before ∷ after ∷ [] ↦ ok (before, after)
  | _ ↦ err value_error
]

-- giturl_parse: the url, the path and the branch
unfoldable pub giturl_parse : Str → Result (Str × Str × Str)
unfolding cut_at branch_and_path occurs_in
giturl_parse url =
    if occurs_in (str "tree") url
    then (cut_at (str "tree") url >>= λ (before, after).
        let (branch, path) = branch_and_path after in ok (before, path, branch))
    else if occurs_in (str "blob") url
    then (cut_at (str "blob") url >>= λ (before, after).
        let (branch, path) = branch_and_path after in ok (before, path, branch))
    else ok (url, [], [])

-- What is in front of the first occurrence
abbrev pub first_of : List Str → Str
first_of [] = []
first_of (w ∷ ws) = w

-- _get_path of get_path_from_url
unfoldable pub code_path : Str → Str → Str → Str
unfolding split split_from
code_path codedir netloc path =
    codedir
    ++ b'/' ∷ (first_of (split b'.' netloc) ++ b'/' ∷ first_of (split_from (str ".git") 0 path))

unfoldable pub get_path_from_url : (Str → Parsed) → Str → Str → Result Str
unfolding match_ssh giturl_parse code_path
get_path_from_url urlparse codedir url = elim (match_ssh url) [
  | some (netloc, path) ↦ ok (code_path codedir netloc path)
  | none ↦ giturl_parse url >>= λ (repository, _, _).
      let parsed = urlparse repository in ok (code_path codedir parsed.netloc parsed.path)
]

-- What is done on the machine: j.sals.fs.mkdirs(…) and run_local(…)
pub data Action : Type 0 where
  mkdirs : Str → Action
  run_local : Str → Action

abbrev pub inside : Str → Str → Str
inside path cmd = str "cd " ++ (path ++ (str " && " ++ cmd))

-- clone_repo: what it does; the commit is not put into the text of the last command.
unfoldable pub clone_repo : (Str → Str) → Str → Str → Str → ℕ → Str → List Action
unfolding decimal split_from
clone_repo basename url dest branch_or_tag depth commit_id =
    let with_branch = elim branch_or_tag as (λ _. Str) [ [] ↦ [] | c ∷ s ↦ str " -b " ++ c ∷ s ] in
    let with_depth = if eqb depth 0 then [] else str " --depth=" ++ decimal depth in
    let repo_name = first_of (split_from (str ".git") 0 (basename url)) in
    let checkout = elim commit_id as (λ _. List Action) [
      | [] ↦ []
      | _ ∷ _ ↦ run_local (inside (dest ++ b'/' ∷ repo_name) (str "git checkout {commit_id}")) ∷ []
    ] in
    mkdirs dest
    ∷ run_local
        (inside dest (str "git clone --single-branch " ++ (url ++ (with_branch ++ with_depth))))
    ∷ checkout

unfoldable pub pull_repo : Str → Bool → Str → List Action
pull_repo path discard_changes revision =
    let discard =
      if discard_changes then run_local (inside path (str "git checkout .")) ∷ [] else [] in
    let checkout = elim revision as (λ _. List Action) [
      | [] ↦ []
      | c ∷ s ↦ run_local (inside path (str "git checkout " ++ c ∷ s)) ∷ []
    ] in
    discard ++ (run_local (inside path (str "git pull")) ∷ checkout)

-- The place that is given, or that of the url
unfoldable pub dest_of : (Str → Parsed) → Str → Str → Str → Result Str
unfolding get_path_from_url
dest_of urlparse codedir url [] = get_path_from_url urlparse codedir url
dest_of urlparse codedir url (c ∷ dest) = ok (c ∷ dest)

-- ensure_repo: the place of the repository, and what is done
unfoldable pub ensure_repo :
    Disk → (Str → Parsed) → Str → Str → Str → Str → Str → Bool → ℕ → Result (Str × List Action)
unfolding dest_of clone_repo pull_repo
ensure_repo disk urlparse codedir url dest branch_or_tag commit_id discard_changes depth =
    dest_of urlparse codedir url dest >>= λ place.
    let revision = elim branch_or_tag as (λ _. Str) [ [] ↦ commit_id | c ∷ s ↦ c ∷ s ] in
    if disk.exists place
    then ok (place, pull_repo place discard_changes revision)
    else ok (place, clone_repo disk.basename url (disk.parent place) branch_or_tag depth [])

-- The parents of what is found
unfoldable pub parents_of : Disk → List Str → List Str
parents_of disk [] = []
parents_of disk (path ∷ paths) = disk.parent path ∷ parents_of disk paths

-- find
unfoldable pub find : Disk → Str → Str → Str → List Str
unfolding walk occurs_in parents_of
find disk codedir account name =
    let ending = elim name as (λ _. Str) [ [] ↦ [] | c ∷ s ↦ (c ∷ s) ++ str "/.git" ] in
    parents_of disk
      (walk disk codedir (str "*.git") (λ path. occurs_in (account ++ b'/' ∷ ending) path))
