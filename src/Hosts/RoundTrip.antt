-- ===== src/Hosts/RoundTrip.antt =====
-- Reading a hosts file that was written.
use js_ng.Prelude.{
  ℕ, ◌≡◌, refl, ap, sym, ◌∙◌, true, false, Option, none, some, List, [], ◌∷◌, ◌++◌, ◌==◌, str_eq,
  if◌then◌else◌, eqb, arith, Str, Bool-cases, inl, inr, ==→eq,
}
use mathlib.Core.Path.{subst}
use js_ng.Prelude.Dict.{Dict, lookup, insert, NodupKeys, lookup-insert}
use js_ng.Prelude.Result.{ok, err, key_error}
use js_ng.Text.{split}
use js_ng.Text.Split.{HasNo, split_word, split_words}
use js_ng.Text.Regex.{search_in}
use js_ng.Hosts.{
  universal_newlines, is_line_end, splitlines, address_regex, parse_lines, parse, write,
  get_hostname,
}

-- The text stays on one line.
abbrev pub HasNoLineEnd : Str → Type 0
HasNoLineEnd [] = Unit
HasNoLineEnd (c ∷ s) = (is_line_end c ≡ false) × HasNoLineEnd s

abbrev pub line_of : Str → Str → Str
line_of key value = key ++ b'\t' ∷ value

-- An entry is an address and a name of one word each, on one line.
abbrev pub AreEntries : Dict Str Str → Type 0
AreEntries [] = Unit
AreEntries ((key, value) ∷ content) =
    HasNo b'\t' key
    × HasNo b'\t' value
    × HasNoLineEnd (line_of key value)
    × (search_in address_regex (line_of key value) ≡ true)
    × AreEntries content

abbrev lines_of : Dict Str Str → List Str
lines_of [] = []
lines_of ((key, value) ∷ content) = line_of key value ∷ lines_of content

abbrev lines_below : Dict Str Str → List Str
lines_below [] = []
lines_below (e ∷ content) = [] ∷ lines_of (e ∷ content)

splitlines-line :
    (c : ℕ) (l s : Str) (content : Dict Str Str)
    → HasNoLineEnd (c ∷ l)
    → splitlines s ≡ lines_below content
    → splitlines ((c ∷ l) ++ s) ≡ (c ∷ l) ∷ lines_of content
unfolding splitlines
splitlines-line c [] s [] h e = rw (e, h.0)
splitlines-line c [] s (x ∷ content) h e = rw (e, h.0)
splitlines-line c (d ∷ l) s content h e = rw (splitlines-line d l s content h.1 e, h.0)

write-cons :
    (key value : Str) (content : Dict Str Str)
    → write ((key, value) ∷ content) ≡ 10 ∷ line_of key value ++ write content
unfolding write
write-cons key value content = refl

splitlines-line_of :
    (key value s : Str) (content : Dict Str Str)
    → HasNoLineEnd (line_of key value)
    → splitlines s ≡ lines_below content
    → splitlines (line_of key value ++ s) ≡ line_of key value ∷ lines_of content
splitlines-line_of [] value s content h e = splitlines-line b'\t' value s content h e
splitlines-line_of (c ∷ key) value s content h e =
    splitlines-line c (line_of key value) s content h e

splitlines-break : (s : Str) → splitlines (10 ∷ s) ≡ [] ∷ splitlines s
unfolding splitlines is_line_end
splitlines-break s = refl

splitlines-write :
    (content : Dict Str Str) → AreEntries content → splitlines (write content) ≡ lines_below content
splitlines-write [] h = unfold splitlines write in refl
splitlines-write ((key, value) ∷ content) h =
    ap splitlines (write-cons key value content)
    ∙ splitlines-break (line_of key value ++ write content)
    ∙ ap (λ ls. [] ∷ ls)
        (splitlines-line_of key value (write content) content h.2 (splitlines-write content h.4))

no_return : (c : ℕ) → is_line_end c ≡ false → eqb c 13 ≡ false
unfolding is_line_end
no_return c h = ground (arith, h)

HasNoLineEnd-HasNo : (s : Str) → HasNoLineEnd s → HasNo 13 s
HasNoLineEnd-HasNo [] h = tt
HasNoLineEnd-HasNo (c ∷ s) h = (no_return c h.0, HasNoLineEnd-HasNo s h.1)

HasNo-append : (c : ℕ) (s t : Str) → HasNo c s → HasNo c t → HasNo c (s ++ t)
HasNo-append c [] t h k = k
HasNo-append c (d ∷ s) t h k = (h.0, HasNo-append c s t h.1 k)

universal_newlines-HasNo : (s : Str) → HasNo 13 s → universal_newlines s ≡ s
unfolding universal_newlines
universal_newlines-HasNo [] h = refl
universal_newlines-HasNo (c ∷ []) h = rw (h.0) refl
universal_newlines-HasNo (c ∷ d ∷ s) h =
    rw (h.0) (ap (λ t. c ∷ t) (universal_newlines-HasNo (d ∷ s) h.1))

write-HasNo : (content : Dict Str Str) → AreEntries content → HasNo 13 (write content)
write-HasNo [] h = unfold write in tt
write-HasNo ((key, value) ∷ content) h = subst (HasNo 13) (sym (write-cons key value content)) (
  refl,
  HasNo-append 13 (line_of key value) (write content) (HasNoLineEnd-HasNo (line_of key value) h.2)
      (write-HasNo content h.4),
)

split-line_of :
    (key value : Str)
    → HasNo b'\t' key
    → HasNo b'\t' value
    → split b'\t' (line_of key value) ≡ key ∷ value ∷ []
split-line_of key value h k =
    split_words b'\t' key value h ∙ ap (λ ws. key ∷ ws) (split_word b'\t' value k)

-- What a dict has for a key, the entries of another before its own
abbrev first_of : Option Str → Option Str → Option Str
first_of none o = o
first_of (some v) o = some v

fresh : {o : Option Str} {v : Str} → o ≡ none → first_of o (some v) ≡ some v
fresh e = rw e refl

first_lem :
    (j key value : Str) (content acc : Dict Str Str)
    → lookup key content ≡ none
    → first_of (lookup j content) (if j == key then some value else lookup j acc)
      ≡ first_of (lookup j ((key, value) ∷ content)) (lookup j acc)
unfolding lookup
first_lem j key value content acc h = elim (Bool-cases (j == key)) [
  | inl e ↦ rw e (fresh (subst (λ k. lookup k content ≡ none) (sym (==→eq j key e)) h))
  | inr e ↦ rw e refl
]

parse-lines_of :
    (content acc : Dict Str Str)
    → AreEntries content
    → NodupKeys content
    → (d : Dict Str Str) × (parse_lines (lines_of content) acc ≡ ok d)
      × ((j : Str) → lookup j d ≡ first_of (lookup j content) (lookup j acc))
unfolding parse_lines
parse-lines_of [] acc h u = (acc, refl, λ j. unfold lookup in refl)
parse-lines_of ((key, value) ∷ content) acc h u =
    let (d, e, f) = parse-lines_of content (insert key value acc) h.4 u.1 in
    (
      d,
      rw (h.3, split-line_of key value h.0 h.1) e,
      λ j.
          f j
          ∙ ap (first_of (lookup j content)) (lookup-insert j key value acc)
          ∙ first_lem j key value content acc u.0,
    )

first_none : (o : Option Str) → first_of o none ≡ o
first_none none = refl
first_none (some v) = refl

-- The empty line at the start is no entry.
parse-lines_below :
    (content : Dict Str Str)
    → parse_lines (lines_below content) [] ≡ parse_lines (lines_of content) []
parse-lines_below [] = refl
parse-lines_below (e ∷ content) = unfold parse_lines search_in address_regex in refl

same_hostname :
    (ip : Str) (c d : Dict Str Str)
    → lookup ip c ≡ lookup ip d
    → get_hostname ip c ≡ get_hostname ip d
unfolding get_hostname
same_hostname ip c d e = ap (λ o. elim o [ none ↦ err key_error | some h ↦ ok h ]) e

-- A written hosts file is read again without an exception, and every address has the name that it
-- had, if the entries are addresses and names of one line without a tab, each address once. A carriage
-- return ends a line, as all does that ends one for str.splitlines.
pub get_hostname-parse-write :
    (content : Dict Str Str)
    → AreEntries content
    → NodupKeys content
    → (d : Dict Str Str) × (parse (write content) ≡ ok d)
      × ((ip : Str) → get_hostname ip d ≡ get_hostname ip content)
unfolding parse lookup
get_hostname-parse-write content h u =
    let (d, e, f) = parse-lines_of content [] h u in
    (
      d,
      ap (λ t. parse_lines (splitlines t) [])
            (universal_newlines-HasNo (write content) (write-HasNo content h))
          ∙ ap (λ ls. parse_lines ls []) (splitlines-write content h)
          ∙ parse-lines_below content
          ∙ e,
      λ ip. same_hostname ip d content (f ip ∙ first_none (lookup ip content)),
    )
