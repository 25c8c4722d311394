-- ===== src/Base/Entries.antt =====
-- Lemmas on the dicts of core/base: keys, and the update of one dict by another.
use js_ng.Prelude.{
  ◌≡◌, refl, sym, ◌∙◌, ap, none, some, arith, ◌==◌, str_eq, ==_refl, if◌then◌else◌, Str,
}
use js_ng.Base.Value.{Value, Entries, end, entry, get, put}

infixr 64 ◌+++◌
unfoldable pub ◌+++◌ : Entries → Entries → Entries
end +++ e = e
entry k v d +++ e = entry k v (d +++ e)

-- d.update(e)
unfoldable pub update : Entries → Entries → Entries
update d end = d
update d (entry k v e) = update (put k v d) e

-- No key stands twice.
abbrev pub Distinct : Entries → Type 0
Distinct end = Unit
Distinct (entry k v d) = (get k d ≡ none) × Distinct d

-- The same keys in the same order.
abbrev pub SameKeys : Entries → Entries → Type 0
SameKeys end end = Unit
SameKeys (entry k v d) (entry j w e) = (k ≡ j) × SameKeys d e
SameKeys _ _ = ⊥

-- Every entry of the first is found in the second.
abbrev pub AllIn : Entries → Entries → Type 0
AllIn end e = Unit
AllIn (entry k v d) e = (get k e ≡ some v) × AllIn d e

pub append-end : (d : Entries) → d +++ end ≡ d
unfolding ◌+++◌
append-end end = refl
append-end (entry k v d) = ap (entry k v) (append-end d)

pub append-append : (a b c : Entries) → (a +++ b) +++ c ≡ a +++ (b +++ c)
unfolding ◌+++◌
append-append end b c = refl
append-append (entry k v d) b c = ap (entry k v) (append-append d b c)

append-entry :
    (a : Entries) (k : Str) (v : Value) (d : Entries)
    → a +++ entry k v d ≡ (a +++ entry k v end) +++ d
unfolding ◌+++◌
append-entry a k v d = sym (append-append a (entry k v end) d)

put_middle :
    (a : Entries) (k : Str) (v w : Value) (d : Entries)
    → get k a ≡ none
    → put k v (a +++ entry k w d) ≡ a +++ entry k v d
unfolding ◌+++◌ get put
put_middle end k v w d h = rw (==_refl k)
put_middle (entry j u a) k v w d h = ground (arith, put_middle a k v w d)

put_end : (a : Entries) (k : Str) (v : Value) → get k a ≡ none → put k v a ≡ a +++ entry k v end
unfolding ◌+++◌ get put
put_end end k v h = refl
put_end (entry j u a) k v h = ground (arith, put_end a k v)

get-snoc :
    (a : Entries) (k j : Str) (v : Value)
    → get k (a +++ entry j v end)
      ≡ (elim (get k a) [ none ↦ if k == j then some v else none | some w ↦ some w ])
unfolding ◌+++◌ get
get-snoc end k j v = refl
get-snoc (entry i u a) k j v = ground (arith, get-snoc a k j v)

-- The first dict has none of the keys of the second.
abbrev NoneOf : Entries → Entries → Type 0
NoneOf a end = Unit
NoneOf a (entry k v d) = (get k a ≡ none) × NoneOf a d

NoneOf-snoc :
    (a d : Entries) (j : Str) (v : Value)
    → NoneOf a d
    → get j d ≡ none
    → NoneOf (a +++ entry j v end) d
unfolding get
NoneOf-snoc a end j v h n = tt
NoneOf-snoc a (entry k w d) j v h n =
    (rw (get-snoc a k j v) (ground arith), NoneOf-snoc a d j v h.1 (ground arith))

NoneOf-end : (d : Entries) → NoneOf end d
unfolding get
NoneOf-end end = tt
NoneOf-end (entry k v d) = (refl, NoneOf-end d)

update_new : (a d : Entries) → NoneOf a d → Distinct d → update a d ≡ a +++ d
unfolding update
update_new a end h u = sym (append-end a)
update_new a (entry k v d) h u = rw (put_end a k v h.0) (
    update_new (a +++ entry k v end) d (NoneOf-snoc a d k v h.1 u.0) u.1
    ∙ rw append-append (unfold ◌+++◌ in refl))

-- To fill an empty dict with distinct keys is to copy.
pub update-end : (d : Entries) → Distinct d → update end d ≡ d
update-end d u = update_new end d (NoneOf-end d) u ∙ (unfold ◌+++◌ in refl)

update_over :
    (a d e : Entries) → NoneOf a e → Distinct e → SameKeys d e → update (a +++ d) e ≡ a +++ e
unfolding update
update_over a end end h u s = refl
update_over a end (entry j w e) h u s = absurd s
update_over a (entry k v d) end h u s = absurd s
update_over a (entry k v d) (entry j w e) h u s =
    rw (s.0, put_middle a j w v d h.0, append-entry a j w d, append-entry a j w e)
      (update_over (a +++ entry j w end) d e (NoneOf-snoc a e j w h.1 u.0) u.1 s.1)

-- A dict with the same keys is overwritten.
pub update-SameKeys : (d e : Entries) → Distinct e → SameKeys d e → update d e ≡ e
unfolding ◌+++◌
update-SameKeys d e u s = update_over end d e (NoneOf-end e) u s

AllIn-cons :
    (d e : Entries) (k : Str) (v : Value) → get k d ≡ none → AllIn d e → AllIn d (entry k v e)
unfolding get
AllIn-cons end e k v h a = tt
AllIn-cons (entry j w d) e k v h a = (ground arith, AllIn-cons d e k v (ground arith) a.1)

pub AllIn-self : (d : Entries) → Distinct d → AllIn d d
unfolding get
AllIn-self end u = tt
AllIn-self (entry k v d) u = (rw (==_refl k), AllIn-cons d d k v u.0 (AllIn-self d u.1))

get-SameKeys : (k : Str) (d e : Entries) → SameKeys d e → get k e ≡ none → get k d ≡ none
unfolding get
get-SameKeys k end end s h = refl
get-SameKeys k end (entry j w e) s h = absurd s
get-SameKeys k (entry i v d) end s h = absurd s
get-SameKeys k (entry i v d) (entry j w e) s h = ground (arith, get-SameKeys k d e s.1)

pub SameKeys-Distinct : (d e : Entries) → SameKeys d e → Distinct e → Distinct d
SameKeys-Distinct end end s u = tt
SameKeys-Distinct end (entry j w e) s u = absurd s
SameKeys-Distinct (entry i v d) end s u = absurd s
SameKeys-Distinct (entry i v d) (entry j w e) s u =
    (rw s.0 (get-SameKeys j d e s.1 u.0), SameKeys-Distinct d e s.1 u.1)
