-- ===== src/Base/Factory/Reload.antt =====
-- What a stored factory has after it was saved and loaded by another.
use mathlib.Core.Path.{ap₂, subst}
use mathlib.Core.List.{append_assoc, append-nil}
use native.Mathlib.Nat.{add-zero, zero-add}
use js_ng.Prelude.{
  ℕ, suc, Option, List, Bool-cases, inl, inr, contains, if◌then◌else◌, ◌≡◌, refl, ap, sym, ◌∙◌,
  true, false, none, some, [], ◌∷◌, ◌++◌, arith, ◌==◌, str_eq, ==→eq, ==_refl, Str, str, ℤ, pos,
  succ, length, ◌+◌,
}
use js_ng.Prelude.Dict.{Dict, lookup, has_key, keys, insert, lookup-insert}
use js_ng.Prelude.Result.{ok, >>=-eq-ok}
use js_ng.Base.Value.{Entries, end}
use js_ng.Base.Field.Data.{Library, Fields}
use js_ng.Base.Field.Nested.{init_values, validate_fields}
use js_ng.Base.Store.Config.{Vault, opened_config}
use js_ng.Base.Store.Storable.{IsLawful, Storable}
use js_ng.Base.Store.RoundTrip.{save_instance, load_instance, load-save}
use js_ng.Base.Factory.{Factory, Own, absent, instance_create, new, is_identifier, new_factory}
use js_ng.Base.Factory.Listing.{
  IsListing, pick, pick_known, lookup-pick, AllIn, first_in, later_in, there, keys-pick, Ready,
  Ready-snoc, Nodup-Ready,
}
use js_ng.Base.Factory.Stored.{validate_and_save, load_one, load}

add_shift : (k n : ℕ) → suc k + n ≡ k + suc n
add_shift k n = omega arith

module _ (lib : Library) (vault : Vault) (fields : Fields) (own : Str → Own) where
  -- A name that a factory accepts.
  pub record IsFree (n : Str) : Type 0 where
    pub identifier : is_identifier n ≡ true
    pub no_own : own n ≡ absent
    pub no_count : (n == str "count") ≡ false

  -- Every instance has a name of its own, is valid and storable.
  abbrev pub AllStorable : Dict Str Entries → Type 0
  AllStorable [] = Unit
  AllStorable ((n, a) ∷ xs) =
      (lookup n xs ≡ none)
      × IsFree n
      × Storable lib fields a
      × (validate_fields lib fields a ≡ ok tt)
      × AllStorable xs

  new_free :
      (n : Str) (w : Entries) (c : ℤ) (d : Dict Str Entries)
      → IsFree n
      → lookup n d ≡ none
      → init_values lib fields end end ≡ ok w
      → new lib fields own n end (record { instances = d; count = some c })
        ≡ ok (record { instances = insert n w d; count = some (succ c) }, instance_create n w)
  unfolding new
  new_free n w c d free missing made = ground (arith, free.identifier, free.no_own, free.no_count)

  insert-insert :
      (n : Str) (a w : Entries) (d : Dict Str Entries)
      → lookup n d ≡ none
      → insert n a (insert n w d) ≡ d ++ (n, a) ∷ []
  unfolding insert lookup
  insert-insert n a w [] h = rw (==_refl n)
  insert-insert n a w ((j, b) ∷ d) h = ground (arith, insert-insert n a w d)

  load_one-saved :
      (n : Str) (a : Entries) (j : vault.Json) (store : Dict Str vault.Json) (c : ℤ)
      (d : Dict Str Entries)
      → lookup n store ≡ some j
      → IsFree n
      → lookup n d ≡ none
      → load_instance lib vault fields j ≡ ok a
      → load_one lib vault fields own n store (record { instances = d; count = some c })
        ≡ ok (record { instances = d ++ (n, a) ∷ []; count = some (succ c) })
  unfolding load_one load_instance
  load_one-saved n a j store c d kept free missing loaded =
      let (config, opened, more) = >>=-eq-ok (opened_config vault j) _ loaded in
      let (w, made, was) = >>=-eq-ok (init_values lib fields end end) _ more in
      rw (
        new_free n w c d free missing made,
        kept,
        opened,
        lookup-insert n n w d,
        ==_refl n,
        was,
        insert-insert n a w d missing,
      )

  validate_and_save_lem :
      (n : Str) (a : Entries) (j : vault.Json) (store : Dict Str vault.Json)
      → validate_fields lib fields a ≡ ok tt
      → save_instance lib vault fields a ≡ ok j
      → validate_and_save lib vault fields own n a store ≡ ok (insert n j store)
  unfolding validate_and_save
  validate_and_save_lem n a j store valid written = rw (valid, written)

  -- Instances are saved one after another, by their own method `save`, from an empty store on.
  pub data Saves : Dict Str Entries → Dict Str vault.Json → Type 0 where
    nothing : Saves [] []
    saving :
        (n : Str) (a : Entries) {xs : Dict Str Entries} {store after : Dict Str vault.Json}
        → Saves xs store
        → validate_and_save lib vault fields own n a store ≡ ok after
        → Saves ((n, a) ∷ xs) after

  -- What the store has for a name is read as the instance of that name.
  abbrev Match : Option Entries → Option vault.Json → Type 0
  Match none none = Unit
  Match (some a) (some j) = load_instance lib vault fields j ≡ ok a
  Match _ _ = ⊥

  insert_agrees :
      (n k : Str) (a : Entries) (j : vault.Json) (xs : Dict Str Entries)
      (store : Dict Str vault.Json)
      → load_instance lib vault fields j ≡ ok a
      → Match (lookup k xs) (lookup k store)
      → Match (lookup k ((n, a) ∷ xs)) (lookup k (insert n j store))
  unfolding lookup
  insert_agrees n k a j xs store read m = elim (Bool-cases (k == n)) [
    | inl e ↦ rw (lookup-insert k n j store, e) read
    | inr e ↦ rw (lookup-insert k n j store, e) m
  ]

  -- All instances can be saved, and are read again.
  AllStorable-Saves :
      (xs : Dict Str Entries)
      → IsLawful vault
      → AllStorable xs
      → (store : Dict Str vault.Json) × Saves xs store
        × ((k : Str) → Match (lookup k xs) (lookup k store))
  AllStorable-Saves [] lawful h = ([], nothing, λ k. unfold lookup in tt)
  AllStorable-Saves ((n, a) ∷ xs) lawful h =
      let (store, saved, matching) = AllStorable-Saves xs lawful h.4 in
      let (j, written, read) =
        >>=-eq-ok (save_instance lib vault fields a) (load_instance lib vault fields)
          (load-save lib vault fields a lawful h.2) in
      (
        insert n j store,
        saving n a saved (validate_and_save_lem n a j store h.3 written),
        λ k. insert_agrees n k a j xs store read (matching k),
      )

  AllStorable-IsFree :
      (n : Str) (a : Entries) (xs : Dict Str Entries)
      → AllStorable xs
      → lookup n xs ≡ some a
      → IsFree n
  unfolding lookup
  AllStorable-IsFree n a [] h e = absurd (cc e)
  AllStorable-IsFree n a ((k, b) ∷ xs) h e = elim (Bool-cases (n == k)) [
    | inl same ↦ subst IsFree (sym (==→eq n k same)) (h.1)
    | inr apart ↦ AllStorable-IsFree n a xs h.4 (ground (arith, e, apart))
  ]

  matched :
      (a : Entries) (o : Option vault.Json)
      → Match (some a) o
      → (j : vault.Json) × (o ≡ some j) × (load_instance lib vault fields j ≡ ok a)
  matched a (some j) m = (j, refl, m)
  matched a none m = absurd m

  load-pick :
      (xs : Dict Str Entries) (store : Dict Str vault.Json) (names : List Str)
      (d : Dict Str Entries) (k : ℕ)
      → AllStorable xs
      → ((n : Str) → Match (lookup n xs) (lookup n store))
      → AllIn names xs
      → Ready names d
      → load lib vault fields own names store (record { instances = d; count = some (pos k) })
        ≡ ok (record { instances = d ++ pick names xs; count = some (pos (k + length names)) })
  unfolding load
  load-pick xs store [] d k h matching all r = unfold pick in rw (append-nil d, add-zero k) refl
  load-pick xs store (n ∷ names) d k h matching all r =
      let (a, e) = there n xs (all n (first_in n names)) in
      let (j, f, read) =
        matched a (lookup n store) (subst (λ o. Match o (lookup n store)) e (matching n)) in
      rw (load_one-saved n a j store (pos k) d f (AllStorable-IsFree n a xs h e) r.1 read) (
        load-pick xs store names (d ++ (n, a) ∷ []) (suc k) h matching
          (λ i z. all i (later_in n i names z)) (Ready-snoc names n a d r.0 r.2)
        ∙ ap₂ (λ x m. ok (record { instances = x; count = some (pos m) }))
            (append_assoc d ((n, a) ∷ []) (pick names xs)
              ∙ ap (λ x. d ++ x) (sym (pick_known n a names xs e)))
            (add_shift k (length names)))

  same_keys :
      (o : Option Entries) (p : Option vault.Json)
      → Match o p
      → (elim p [ none ↦ false | some _ ↦ true ]) ≡ (elim o [ none ↦ false | some _ ↦ true ])
  same_keys none none m = refl
  same_keys (some a) (some j) m = refl
  same_keys none (some j) m = absurd m
  same_keys (some a) none m = absurd m

  whatever :
      (k : Str) (names : List Str) (xs : Dict Str Entries)
      → contains names k ≡ has_key k xs
      → (if contains names k then lookup k xs else none) ≡ lookup k xs
  unfolding has_key
  whatever k names xs h = ground (arith, h)

  -- All instances of a factory can be saved, one after another and each by its `save`. A factory that
  -- loads the store afterwards, of which the names are listed in whatever order, has exactly these
  -- instances under their names, in the order of the listing, and counts them. The names are distinct,
  -- identifiers and no attributes of the factory's own, and the instances are valid and storable.
  pub load-Saves :
      (xs : Dict Str Entries)
      → IsLawful vault
      → AllStorable xs
      → (store : Dict Str vault.Json) × Saves xs store
        × ((names : List Str)
            → IsListing names store
            → (g : Factory) × (load lib vault fields own names store new_factory ≡ ok g)
              × ((n : Str) → lookup n g.instances ≡ lookup n xs)
              × (keys g.instances ≡ names)
              × (g.count ≡ some (pos (length names))))
  load-Saves xs lawful h =
      let (store, saved, matching) = AllStorable-Saves xs lawful h in
      (
        store,
        saved,
        λ names listing.
            let listed : (n : Str) → contains names n ≡ has_key n xs = λ n.
              listing.1 n
              ∙ (unfold has_key in same_keys (lookup n xs) (lookup n store) (matching n)) in
            let all : AllIn names xs = λ n z. sym (listed n) ∙ z in
            (
              record { instances = pick names xs; count = some (pos (length names)) },
              load-pick xs store names [] 0 h matching all (Nodup-Ready names listing.0)
                  ∙ ap (λ k. ok (record { instances = pick names xs; count = some (pos k) }))
                      (zero-add (length names)),
              λ n. lookup-pick names xs n ∙ whatever n names xs (listed n),
              keys-pick names xs all,
              refl,
            ),
      )
