-- ===== src/Base/Factory/Laws.antt =====
-- What the methods of a factory do to its instances and to its counter.
use js_ng.Prelude.{
  ℕ, ◌≡◌, ◌≢◌, true, false, none, some, Option-cases, sym, ap, ◌∙◌, ==_refl, zero, inl, inr, arith,
  ◌==◌, str_eq, suc, length, if◌then◌else◌, Str, str, ℤ, pos, succ, prec,
}
use mathlib.Core.Path.{subst}
use js_ng.Prelude.Dict.{
  lookup, insert, erase, lookup-insert, lookup-erase, erase_missing, length-insert, length-erase,
  insert-NodupKeys, erase-NodupKeys, NodupKeys,
}
use js_ng.Prelude.Result.{ok, Result-cases}
use js_ng.Base.Value.{Entries, end}
use js_ng.Base.Field.Data.{Library, Fields}
use js_ng.Base.Field.Nested.{init_values}
use js_ng.Base.Factory.{
  Factory, Own, absent, Event, instance_create, instance_delete, find, new, get_or_new, delete,
  is_identifier,
}

-- The counter is the number of instances, and no name stands twice.
pub record IsCounted (f : Factory) : Type 0 where
  pub counted : f.count ≡ some (pos (length f.instances))
  pub nodup : NodupKeys f.instances

prec-ne : (n : ℕ) → some (prec (pos n)) ≢ some (pos n)
prec-ne zero e = cc e
prec-ne (suc n) e = ground (arith, e)

module _ (lib : Library) (fields : Fields) (own : Str → Own) where
  -- What a successful `new` has done.
  record WasNew (n : Str) (kwargs : Entries) (f g : Factory) (ev : Event) : Type 0 where
    attrs : Entries
    made : init_values lib fields kwargs end ≡ ok attrs
    named : is_identifier n ≡ true
    fresh : lookup n f.instances ≡ none
    instances_eq : g.instances ≡ insert n attrs f.instances
    before : ℤ
    count_eq : f.count ≡ some before
    count_after : g.count ≡ some (succ before)
    event_eq : ev ≡ instance_create n attrs

  new-WasNew :
      (n : Str) (kwargs : Entries) (f g : Factory) (ev : Event)
      → new lib fields own n kwargs f ≡ ok (g, ev)
      → WasNew n kwargs f g ev
  unfolding new
  new-WasNew n kwargs f g ev h = elim (Result-cases (init_values lib fields kwargs end)) [
    | inl (a, e) ↦ elim (Option-cases f.count) [
      | inl z ↦ absurd (ground arith)
      | inr (c, z) ↦ record {
        attrs = a;
        made = e;
        named = ground arith;
        fresh = ground arith;
        instances_eq = ground arith;
        before = c;
        count_eq = z;
        count_after = ground arith;
        event_eq = ground arith;
      }
    ]
    | inr (x, e) ↦ absurd (ground arith)
  ]

  -- After `new` the name is found with the attributes that the class gives from the arguments, every
  -- other instance is found as before, and the creation is announced. The name was free, and is an
  -- identifier.
  pub find-new :
      (n : Str) (kwargs : Entries) (f g : Factory) (ev : Event)
      → new lib fields own n kwargs f ≡ ok (g, ev)
      → (a : Entries) × (init_values lib fields kwargs end ≡ ok a)
        × (find lib fields own n g ≡ ok (some a))
        × ((j : Str) → (j == n) ≡ false → lookup j g.instances ≡ lookup j f.instances)
        × (lookup n f.instances ≡ none)
        × (is_identifier n ≡ true)
        × (ev ≡ instance_create n a)
  unfolding find
  find-new n kwargs f g ev h =
      let s = new-WasNew n kwargs f g ev h in
      (
        s.attrs,
        s.made,
        rw (
          (ap (lookup n) s.instances_eq ∙ lookup-insert n n s.attrs f.instances),
          find,
          ==_refl n,
        ),
        λ j e. ap (lookup j) s.instances_eq ∙ rw (lookup-insert j n s.attrs f.instances, e),
        s.fresh,
        s.named,
        s.event_eq,
      )

  new-IsCounted :
      (n : Str) (kwargs : Entries) (f g : Factory) (ev : Event)
      → IsCounted f
      → new lib fields own n kwargs f ≡ ok (g, ev)
      → IsCounted g
  new-IsCounted n kwargs f g ev c h =
      let s = new-WasNew n kwargs f g ev h in
      record {
        counted =
            ground
              (arith, length-insert n s.attrs f.instances, c.counted, s.count_eq, s.count_after);
        nodup =
            subst (λ d. NodupKeys d) (sym s.instances_eq)
              (insert-NodupKeys n s.attrs f.instances c.nodup);
      }

  -- What deleting an instance, or a name that the factory does not know, does.
  delete_lem :
      (n : Str) (f : Factory) (c : ℤ)
      → f.count ≡ some c
      → (own n ≡ absent)
      → (n == str "count") ≡ false
      → delete lib fields own n f
        ≡ ok (record { instances = erase n f.instances; count = some (prec c) }, instance_delete n)
  unfolding delete
  delete_lem n f c e free other = ground (arith, erase_missing n f.instances)

  -- Deleting an instance takes exactly that name away, and keeps the counter the number of
  -- instances.
  pub delete-IsCounted :
      (n : Str) (a : Entries) (f : Factory)
      → IsCounted f
      → own n ≡ absent
      → (n == str "count") ≡ false
      → lookup n f.instances ≡ some a
      → (g : Factory) × (delete lib fields own n f ≡ ok (g, instance_delete n))
        × IsCounted g
        × ((j : Str) → lookup j g.instances ≡ (if j == n then none else lookup j f.instances))
  delete-IsCounted n a f c free other e =
      let g : Factory = record {
        instances = erase n f.instances;
        count = some (prec (pos (length f.instances)));
      } in
      (
        g,
        delete_lem n f (pos (length f.instances)) c.counted free other,
        record {
          counted = rw (← length-erase n a f.instances c.nodup e);
          nodup = erase-NodupKeys n f.instances c.nodup;
        },
        λ j. lookup-erase j n f.instances,
      )

  -- Deleting a name that is not there takes one off the counter all the same: it no longer is the
  -- number of instances.
  pub delete_missing :
      (n : Str) (f : Factory)
      → IsCounted f
      → own n ≡ absent
      → (n == str "count") ≡ false
      → lookup n f.instances ≡ none
      → (g : Factory) × (delete lib fields own n f ≡ ok (g, instance_delete n))
        × (g.instances ≡ f.instances)
        × ¬ IsCounted g
  delete_missing n f c free other e =
      let g : Factory = record {
        instances = erase n f.instances;
        count = some (prec (pos (length f.instances)));
      } in
      (
        g,
        delete_lem n f (pos (length f.instances)) c.counted free other,
        erase_missing n f.instances e,
        λ k. prec-ne (length f.instances) (rw (erase_missing n f.instances e) at k.counted),
      )

  -- `get` of a name that is an instance changes nothing, and after a `get` of a new name the name is
  -- found: the second `get` changes nothing.
  pub get_or_new_twice :
      (n : Str) (kwargs other : Entries) (f g : Factory)
      → get_or_new lib fields own n kwargs f ≡ ok g
      → get_or_new lib fields own n other g ≡ ok g
  unfolding get_or_new
  get_or_new_twice n kwargs other f g h = elim (Result-cases (find lib fields own n f)) [
    | inl (some a, e) ↦ ground (arith, e)
    | inl (none, e) ↦ elim (Result-cases (new lib fields own n kwargs f)) [
      | inl ((g', ev), made) ↦ ground (arith, e, made, (find-new n kwargs f g' ev made).2)
      | inr (x, made) ↦ absurd (ground (arith, e, made))
    ]
    | inr (x, e) ↦ absurd (ground (arith, e))
  ]
