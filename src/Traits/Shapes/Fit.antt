-- ===== src/Traits/Shapes/Fit.antt =====
-- When the check of the payload shapes finds nothing.
use almadar_runtime.Base.{
  ◌≡◌, ◌↔◌, refl, sym, ap, subst, ◌∙◌, Bool, true, false, inl, inr, List, [], ◌∷◌, ◌++◌, Option,
  none, some, String, get, put, get_or, or_else, or_else-none, contains, insert, ◌==◌,
  if◌then◌else◌, string_eq, All, get-put, Bool-cases,
}
use almadar_runtime.Traits.Shapes.{
  SExpr, text, atom, list, object, SExprs, no_items, item, SEntries, no_entries, entry,
  EmitDeclaration, Emitter, Listener, ListeningTrait, listed, collect_refs, collect_items,
  collect_entries, as_set, extract_payload_references, index_declarations, emit_index, check_refs,
  check_mapping, check_listeners, check_traits, validate_payload_shapes,
}
use almadar_runtime.Traits.Payload.{append-eq-nil}
use almadar_runtime.Traits.Shapes.Reference.{payload_reference}

-- The last declaration of an event, over all traits.
abbrev pub last_declared : String → String → List EmitDeclaration → Option Emitter
last_declared event trait_name [] = none
last_declared event trait_name (d ∷ ds) = or_else (last_declared event trait_name ds) (
    if d.event == event
    then some (record { trait_name = trait_name; fields = get_or d.payload_schema [] })
    else none)

abbrev pub last_emitter : String → List (String × List EmitDeclaration) → Option Emitter
last_emitter event [] = none
last_emitter event ((trait_name, ds) ∷ emits) =
    or_else (last_emitter event emits) (last_declared event trait_name ds)

or_else_assoc {ℓ} :
    {A : Type ℓ} (a b c : Option A) → or_else a (or_else b c) ≡ or_else (or_else a b) c
or_else_assoc none b c = refl
or_else_assoc (some x) b c = refl

get-index_declarations :
    (event trait_name : String) (ds : List EmitDeclaration) (m : List (String × Emitter))
    → get event (index_declarations trait_name ds m)
      ≡ or_else (last_declared event trait_name ds) (get event m)
get-index_declarations event trait_name [] m = refl
get-index_declarations event trait_name (d ∷ ds) m =
    let e : Emitter = record { trait_name = trait_name; fields = get_or d.payload_schema [] } in
    get-index_declarations event trait_name ds (put d.event e m)
    ∙ ap (or_else (last_declared event trait_name ds))
        (get-put d.event event e m ∙ over (d.event == event) e (get event m))
    ∙ or_else_assoc (last_declared event trait_name ds) (if d.event == event then some e else none)
        (get event m)
  where
    over :
        (b : Bool) (x : Emitter) (o : Option Emitter)
        → (if b then some x else o) ≡ or_else (if b then some x else none) o
    over true x o = refl
    over false x o = refl

get-emit_index :
    (event : String) (emits : List (String × List EmitDeclaration)) (m : List (String × Emitter))
    → get event (emit_index emits m) ≡ or_else (last_emitter event emits) (get event m)
get-emit_index event [] m = refl
get-emit_index event ((trait_name, ds) ∷ emits) m =
    get-emit_index event emits (index_declarations trait_name ds m)
    ∙ ap (or_else (last_emitter event emits)) (get-index_declarations event trait_name ds m)
    ∙ or_else_assoc (last_emitter event emits) (last_declared event trait_name ds) (get event m)

-- The references to a payload in an expression are among the fields.
abbrev pub RefFits : List String → Option String → Type 0
RefFits fields none = Unit
RefFits fields (some r) = contains r fields ≡ true

abbrev mutual
  pub ExprFits : List String → SExpr → Type 0
  ExprFits fields (text s) = RefFits fields (payload_reference s)
  ExprFits fields atom = Unit
  ExprFits fields (list xs) = ItemsFit fields xs
  ExprFits fields (object es) = EntriesFit fields es

  pub ItemsFit : List String → SExprs → Type 0
  ItemsFit fields no_items = Unit
  ItemsFit fields (item x xs) = ExprFits fields x × ItemsFit fields xs

  pub EntriesFit : List String → SEntries → Type 0
  EntriesFit fields no_entries = Unit
  EntriesFit fields (entry k x es) = ExprFits fields x × EntriesFit fields es

-- The references in a mapping are among the fields of the event's emitter, where there is one.
abbrev pub MappingFits : Option Emitter → Option SEntries → Type 0
MappingFits none mapping = Unit
MappingFits (some e) none = Unit
MappingFits (some e) (some mapping) = EntriesFit e.fields mapping

module _ (fields : List String) where
  abbrev Among : String → Type 0
  Among r = contains r fields ≡ true

  All_append_iff : (xs ys : List String) → All Among (xs ++ ys) ↔ (All Among xs × All Among ys)
  All_append_iff [] ys = (λ h. (tt, h), λ h. h.1)
  All_append_iff (x ∷ xs) ys =
      let (to, from) = All_append_iff xs ys in
      (λ h. ((h.0, (to h.1).0), (to h.1).1), λ h. (h.0.0, from (h.0.1, h.1)))

  listed_iff : (o : Option String) → All Among (listed o) ↔ RefFits fields o
  listed_iff none = (λ h. tt, λ h. tt)
  listed_iff (some r) = (λ h. h.0, λ h. (h, tt))

  mutual
    collect_refs_iff : (x : SExpr) → All Among (collect_refs x) ↔ ExprFits fields x
    collect_refs_iff (text s) = listed_iff (payload_reference s)
    collect_refs_iff atom = (λ h. tt, λ h. tt)
    collect_refs_iff (list xs) = collect_items_iff xs
    collect_refs_iff (object es) = collect_entries_iff es

    collect_items_iff : (xs : SExprs) → All Among (collect_items xs) ↔ ItemsFit fields xs
    collect_items_iff no_items = (λ h. tt, λ h. tt)
    collect_items_iff (item x xs) =
        let both = All_append_iff (collect_refs x) (collect_items xs) in
        let here = collect_refs_iff x in
        let there = collect_items_iff xs in
        (λ h. (here.0 (both.0 h).0, there.0 (both.0 h).1), λ h. both.1 (here.1 h.0, there.1 h.1))

    collect_entries_iff : (es : SEntries) → All Among (collect_entries es) ↔ EntriesFit fields es
    collect_entries_iff no_entries = (λ h. tt, λ h. tt)
    collect_entries_iff (entry k x es) =
        let both = All_append_iff (collect_refs x) (collect_entries es) in
        let here = collect_refs_iff x in
        let there = collect_entries_iff es in
        (λ h. (here.0 (both.0 h).0, there.0 (both.0 h).1), λ h. both.1 (here.1 h.0, there.1 h.1))

  insert_iff :
      (r : String) (seen : List String) → All Among (insert r seen) ↔ (All Among seen × Among r)
  unfolding insert
  insert_iff r [] = (λ h. (tt, h.0), λ h. (h.1, tt))
  insert_iff r (x ∷ xs) =
      let (to, from) = insert_iff r xs in
      elim (Bool-cases (x == r)) [
        | inl t ↦ rw t (λ h. (h, subst Among ((string_eq.test_iff x r).0 t) h.0), λ h. h.0)
        | inr f ↦ rw f (λ h. ((h.0, (to h.1).0), (to h.1).1), λ h. (h.0.0, from (h.0.1, h.1)))
      ]

  as_set_iff :
      (seen rs : List String) → All Among (as_set seen rs) ↔ (All Among seen × All Among rs)
  as_set_iff seen [] = (λ h. (h, tt), λ h. h.0)
  as_set_iff seen (r ∷ rs) =
      let (to, from) = as_set_iff (insert r seen) rs in
      let (into, back) = insert_iff r seen in
      (
        λ h. ((into (to h).0).0, ((into (to h).0).1, (to h).1)),
        λ h. from (back (h.0, h.1.0), h.1.1),
      )

check_refs_iff :
    (listener event : String) (e : Emitter) (rs : List String)
    → (check_refs listener event e rs ≡ []) ↔ All (Among e.fields) rs
check_refs_iff listener event e [] = (λ h. tt, λ h. refl)
check_refs_iff listener event e (r ∷ rs) =
    let (to, from) = check_refs_iff listener event e rs in
    elim (Bool-cases (contains r e.fields)) [
      | inl t ↦ rw t (λ h. (refl, to h), λ h. from h.1)
      | inr f ↦ rw f (λ h. absurd (cc), λ h. absurd (let u = h.0 in cc))
    ]

check_mapping_iff :
    (listener event : String) (o : Option Emitter) (m : Option SEntries)
    → (check_mapping listener event o m ≡ []) ↔ MappingFits o m
check_mapping_iff listener event none m = (λ h. tt, λ h. refl)
check_mapping_iff listener event (some e) none = (λ h. tt, λ h. refl)
check_mapping_iff listener event (some e) (some m) =
    let refs = check_refs_iff listener event e (extract_payload_references m) in
    let set = as_set_iff e.fields [] (collect_entries m) in
    let found = collect_entries_iff e.fields m in
    (λ h. found.0 (set.0 (refs.0 h)).1, λ h. refs.1 (set.1 (tt, found.1 h)))

module _ (emits : List (String × List EmitDeclaration)) where
  abbrev pub ListenerFits : Listener → Type 0
  ListenerFits l = MappingFits (last_emitter l.event emits) l.payload_mapping

  emitter_found : (event : String) → get event (emit_index emits []) ≡ last_emitter event emits
  unfolding get
  emitter_found event = get-emit_index event emits [] ∙ or_else-none (last_emitter event emits)

  check_listeners_iff :
      (name : String) (ls : List Listener)
      → (check_listeners name (emit_index emits []) ls ≡ []) ↔ All ListenerFits ls
  check_listeners_iff name [] = (λ h. tt, λ h. refl)
  check_listeners_iff name (l ∷ ls) =
      let o = get l.event (emit_index emits []) in
      let here = check_mapping_iff name l.event o l.payload_mapping in
      let there = check_listeners_iff name ls in
      let both =
        append-eq-nil (check_mapping name l.event o l.payload_mapping)
          (check_listeners name (emit_index emits []) ls) in
      (
        λ h. (
          subst (λ p. MappingFits p l.payload_mapping) (emitter_found l.event)
              (here.0 (both.0 h).0),
          there.0 (both.0 h).1,
        ),
        λ h. both.1 (
          here.1 (subst (λ p. MappingFits p l.payload_mapping) (sym (emitter_found l.event)) h.0),
          there.1 h.1,
        ),
      )

  -- The check finds nothing exactly if, for each listener with a mapping, whose event some trait emits,
  -- each reference to the payload, however deep in the mapping, names a field of the last declaration of
  -- that event.
  pub validate_payload_shapes_iff :
      (traits : List ListeningTrait)
      → (validate_payload_shapes traits emits ≡ [])
        ↔ All (λ t. All ListenerFits (get_or t.listens [])) traits
  unfolding validate_payload_shapes
  validate_payload_shapes_iff [] = (λ h. tt, λ h. refl)
  validate_payload_shapes_iff (t ∷ ts) =
      let here = check_listeners_iff t.name (get_or t.listens []) in
      let there = validate_payload_shapes_iff ts in
      let both =
        append-eq-nil (check_listeners t.name (emit_index emits []) (get_or t.listens []))
          (check_traits (emit_index emits []) ts) in
      (λ h. (here.0 (both.0 h).0, there.0 (both.0 h).1), λ h. both.1 (here.1 h.0, there.1 h.1))
