-- ===== src/Openresty/Twice.antt =====
-- What a second call of Website.configure does.
use js_ng.Prelude.{
  ◌≡◌, refl, sym, ap, ◌∙◌, true, some, Option-cases, List, [], ◌∷◌, ◌++◌, Str, arith, Bool-cases,
  In, inl, inr,
}
use js_ng.Prelude.Dict.{Dict}
use js_ng.Prelude.Result.{ok, >>=-eq-ok, ok-inj}
use mathlib.Core.Path.{subst}
use js_ng.Openresty.Configure.{
  Rendering, Written, mkdir, write_file, Location, Website, ends_in_slash, with_slash, has_files,
  write_config, settle, configure_location, configure_locations, configure_website, servers_dir,
  website_path, locations_dir,
}

ends_in_slash-append : (s : Str) → ends_in_slash (s ++ b'/' ∷ []) ≡ true
unfolding ends_in_slash
ends_in_slash-append [] = refl
ends_in_slash-append (c ∷ []) = refl
ends_in_slash-append (c ∷ d ∷ s) = ends_in_slash-append (d ∷ s)

with_slash_idem : (s : Str) → with_slash (with_slash s) ≡ with_slash s
unfolding with_slash
with_slash_idem s = elim (Bool-cases (ends_in_slash s)) [
  | inl e ↦ ground (arith, e)
  | inr e ↦ ground (arith, e, ends_in_slash-append s)
]

settle_files :
    (l : Location) (p : Str)
    → has_files l.location_type ≡ true
    → l.path_location ≡ some p
    → settle l ≡ ok (record l { path_location = some (with_slash p) })
unfolding settle
settle_files l p e f = ground (arith, e, f)

settle_twice : (l l' : Location) → settle l ≡ ok l' → settle l' ≡ ok l'
unfolding settle
settle_twice l l' h = elim (Bool-cases (has_files l.location_type)) [
  | inr e ↦ ground (arith, h, e)
  | inl e ↦ elim (Option-cases l.path_location) [
    | inl f ↦ absurd (ground (arith, h, e, f))
    | inr (p, f) ↦
        let m = record l { path_location = some (with_slash p) } in
        subst (λ k. settle k ≡ ok k) (ok-inj (sym (settle_files l p e f) ∙ h))
          (settle_files m (with_slash p) e refl
            ∙ ap (λ q. ok (record l { path_location = some q })) (with_slash_idem p))
  ]
]

module _ (r : Rendering) where
  configure_location_twice :
      (website name : Str) (l l' : Location) (told : List Written)
      → configure_location r website name l ≡ ok (told, l')
      → configure_location r website name l' ≡ ok (told, l')
  unfolding configure_location
  configure_location_twice website name l l' told h =
      let (m, e, f) = >>=-eq-ok (settle l) _ h in
      subst (λ x. configure_location r website name x.1 ≡ ok x) (ok-inj f)
        (rw (settle_twice l m e) refl)

  configure_locations_cons :
      (website name : Str) (l m : Location) (ls ms : Dict Str Location) (told more : List Written)
      → configure_location r website name l ≡ ok (told, m)
      → configure_locations r website ls ≡ ok (more, ms)
      → configure_locations r website ((name, l) ∷ ls) ≡ ok (told ++ more, (name, m) ∷ ms)
  unfolding configure_locations
  configure_locations_cons website name l m ls ms told more e f = rw (e, f) refl

  configure_locations_twice :
      (website : Str) (ls ls' : Dict Str Location) (told : List Written)
      → configure_locations r website ls ≡ ok (told, ls')
      → configure_locations r website ls' ≡ ok (told, ls')
  unfolding configure_locations
  configure_locations_twice website [] ls' told h =
      subst (λ x. configure_locations r website x.1 ≡ ok x) (ok-inj h) refl
  configure_locations_twice website ((name, l) ∷ ls) ls' told h =
      let ((one, m), e, rest) = >>=-eq-ok (configure_location r website name l) _ h in
      let ((more, ms), f, last) = >>=-eq-ok (configure_locations r website ls) _ rest in
      subst (λ x. configure_locations r website x.1 ≡ ok x) (ok-inj last)
        (configure_locations_cons website name m m ms ms one more
          (configure_location_twice website name l m one e)
          (configure_locations_twice website ls ms more f))

  configure_location_writes :
      (website name : Str) (l m : Location) (told : List Written)
      → configure_location r website name l ≡ ok (told, m)
      → told ≡ mkdir (locations_dir r website) ∷ write_config r website name m ∷ []
  unfolding configure_location
  configure_location_writes website name l m told h =
      let (k, e, f) = >>=-eq-ok (settle l) _ h in
      subst (λ x. x.0 ≡ mkdir (locations_dir r website) ∷ write_config r website name x.1 ∷ [])
        (ok-inj f) refl

  among_written :
      (website name name' : Str) (l m : Location) (ms : Dict Str Location) (more : List Written)
      → In (name, l) ((name', m) ∷ ms)
      → (In (name, l) ms → In (write_config r website name l) more)
      → In
          (write_config r website name l)
          (mkdir (locations_dir r website) ∷ write_config r website name' m ∷ more)
  among_written website name name' l m ms more (inl e) ih =
      inr (inl (ap (λ x. write_config r website x.0 x.1) e))
  among_written website name name' l m ms more (inr i) ih = inr (inr (ih i))

  configure_locations_write :
      (website : Str) (ls ls' : Dict Str Location) (told : List Written)
      → configure_locations r website ls ≡ ok (told, ls')
      → (name : Str) (l : Location) → In (name, l) ls'
      → In (write_config r website name l) told
  unfolding configure_locations
  configure_locations_write website [] ls' told h name l i =
      absurd (subst (λ x. In (name, l) x.1) (sym (ok-inj h)) i)
  configure_locations_write website ((name', l') ∷ ls) ls' told h name l i =
      let ((one, m), e, rest) = >>=-eq-ok (configure_location r website name' l') _ h in
      let ((more, ms), f, last) = >>=-eq-ok (configure_locations r website ls) _ rest in
      subst (λ x. In (write_config r website name l) x.0) (ok-inj last)
        (subst (λ x. In (write_config r website name l) (x ++ more))
          (sym (configure_location_writes website name' l' m one e))
          (among_written website name name' l m ms more
            (subst (λ x. In (name, l) x.1) (sym (ok-inj last)) i)
            (configure_locations_write website ls ms more f name l)))

  -- After a call of configure that does not raise, the text of every location is written as the location
  -- is then, and another call leaves the website and its locations as they are: it writes the same again
  -- but for the website's own text, which is that of the website now.
  pub configure_website_twice :
      (website : Str) (w w' : Website) (told : List Written)
      → configure_website r website w ≡ ok (told, w')
      → (more : List Written) × (told
          ≡ mkdir (servers_dir r)
            ∷ write_file (website_path r website) (r.website_text website w)
            ∷ more)
        × ((name : Str) (l : Location)
            → In (name, l) w'.locations
            → In (write_config r website name l) more)
        × (configure_website r website w'
            ≡ ok (
              mkdir (servers_dir r)
                  ∷ write_file (website_path r website) (r.website_text website w')
                  ∷ more,
              w',
            ))
  unfolding configure_website
  configure_website_twice website w w' told h =
      let ((more, ms), e, last) = >>=-eq-ok (configure_locations r website w.locations) _ h in
      (
        more,
        sym (ap (λ x. x.0) (ok-inj last)),
        λ name l i.
            configure_locations_write website w.locations ms more e name l
              (subst (λ x. In (name, l) x.1.locations) (sym (ok-inj last)) i),
        subst
            (λ x.
              configure_website r website x.1
              ≡ ok (
                mkdir (servers_dir r)
                    ∷ write_file (website_path r website) (r.website_text website x.1)
                    ∷ more,
                x.1,
              ))
            (ok-inj last) (rw (configure_locations_twice website w.locations ms more e) refl),
      )
