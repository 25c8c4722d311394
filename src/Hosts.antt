-- ===== src/Hosts.antt =====
-- sals/hostsfile/__init__.py: the hosts file as a dict of names by address.
pub mod RoundTrip
use js_ng.Prelude.{
  ℕ, Bool, true, false, ◌&&◌, ◌||◌, Option, none, some, List, [], ◌∷◌, ◌++◌, ◌==◌, str_eq,
  if◌then◌else◌, leb, eqb, Str,
}
use js_ng.Prelude.Dict.{Dict, lookup, insert, erase, has_key}
use js_ng.Prelude.Result.{Result, ok, err, index_error, key_error, ◌>>=◌}
use js_ng.Text.{split, is_digit}
use js_ng.Text.Regex.{Regex, chars, cat, one_of, plus, search_in}

-- What ends a line for `str.splitlines`. A carriage return with a line feed ends one line; reading a
-- file leaves no carriage return.
unfoldable pub is_line_end : ℕ → Bool
is_line_end c =
    leb 10 c && leb c 13 || leb 28 c && leb c 30 || eqb c 0x85 || eqb c 0x2028 || eqb c 0x2029

-- The text that a file opened as a text is read as: a carriage return, and one with the line feed behind
-- it, become a line feed.
unfoldable pub universal_newlines : Str → Str
universal_newlines [] = []
universal_newlines (c ∷ []) = (if eqb c 13 then 10 else c) ∷ []
universal_newlines (c ∷ d ∷ s) =
    let rest = universal_newlines (d ∷ s) in
    if eqb c 13 then (if eqb d 10 then rest else 10 ∷ rest) else c ∷ rest

unfoldable pub splitlines : Str → List Str
splitlines [] = []
splitlines (c ∷ s) =
    let rest = splitlines s in
    if is_line_end c then [] ∷ rest else (elim rest [ [] ↦ (c ∷ []) ∷ [] | l ∷ ls ↦ (c ∷ l) ∷ ls ])

-- \d+\.\d+\.\d+\.\d+, with the digits of ASCII
unfoldable pub address_regex : Regex
unfolding is_digit plus one_of
address_regex =
    let number = plus (chars is_digit) in
    let dot = one_of b'.' in
    cat number (cat dot (cat number (cat dot (cat number (cat dot number)))))

-- The loops over the lines: those that hold an address become entries.
unfoldable pub parse_lines : List Str → Dict Str Str → Result (Dict Str Str)
unfolding search_in address_regex split
parse_lines [] content = ok content
parse_lines (l ∷ ls) content =
    let others = parse_lines ls content in
    if search_in address_regex l
    then (elim (split b'\t' l) [
      | [] ↦ err index_error
      | key ∷ [] ↦ err index_error
      | key ∷ value ∷ _ ↦ parse_lines ls (insert key value content)
    ])
    else others

-- HostsFile._parse, of what the file holds
unfoldable pub parse : Str → Result (Dict Str Str)
unfolding splitlines parse_lines universal_newlines
parse text = parse_lines (splitlines (universal_newlines text)) []

-- HostsFile.write: the text of the file
unfoldable pub write : Dict Str Str → Str
write [] = []
write ((key, value) ∷ content) = 10 ∷ key ++ b'\t' ∷ value ++ write content

-- HostsFile.remove
unfoldable pub remove : Str → Dict Str Str → Result (Dict Str Str)
unfolding has_key erase
remove ip content = if has_key ip content then ok (erase ip content) else err key_error

-- HostsFile.add
unfoldable pub add : Str → Str → Dict Str Str → Dict Str Str
unfolding insert
add ip domain content = insert ip domain content

-- HostsFile.set_hostname
unfoldable pub set_hostname : Str → Str → Dict Str Str → Dict Str Str
unfolding insert
set_hostname ip domain content = insert ip domain content

-- HostsFile.exists
unfoldable pub exists_ip : Str → Dict Str Str → Bool
unfolding has_key
exists_ip ip content = has_key ip content

-- HostsFile.get_hostname
unfoldable pub get_hostname : Str → Dict Str Str → Result Str
unfolding lookup
get_hostname ip content = elim (lookup ip content) [ none ↦ err key_error | some h ↦ ok h ]
