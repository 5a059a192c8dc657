-- ===== src/Composition/Compose/Identity.antt =====
-- The ledger and the version of a composed schema.
use Prim.Native.Char.{code}
use text.Mathlib.TextEquality.{Char-path}
use almadar_runtime.Base.{
  ℕ, ◌≤◌, ◌≡◌, refl, ap₂, ◌∙◌, true, false, ◌||◌, inl, inr, List, [], ◌∷◌, Option, none, some,
  String, keys, contains, get, put, get_or, or_else, ltb, ◌==◌, nat_eq, if◌then◌else◌, string_eq,
  arith, All, Bool-cases, Option-cases, get-put, is_some, IsUnique, put-IsUnique, ◌⊎◌,
}
use almadar_runtime.Composition.Compose.{
  Entries, Source, whole, one, text_ltb, add_new, collect, has_ledger, place, sorted, merge_ledgers,
  larger, max_from, merge_schema_versions,
}

text_ltb_total : (a b : String) → text_ltb a b ≡ false → (a == b) ≡ false → text_ltb b a ≡ true
unfolding text_ltb
text_ltb_total String.[] String.[] h n = cc ((string_eq.test_iff String.[] String.[]).1 refl)
text_ltb_total (String.◌∷◌ c s) String.[] h n = refl
text_ltb_total String.[] (String.◌∷◌ d t) h n = cc
text_ltb_total (String.◌∷◌ c s) (String.◌∷◌ d t) h n = elim (Bool-cases (ltb (code c) (code d))) [
  | inl less ↦ cc (rw less at h)
  | inr more ↦ elim (Bool-cases (code c == code d)) [
    | inl same ↦ ground (arith, text_ltb_total s t (rw (more, same) at h) (tail same))
    | inr other ↦ ground arith
  ]
]
  where
    tail : (code c == code d) ≡ true → (s == t) ≡ false
    tail same = elim (Bool-cases (s == t)) [
      | inl eq ↦ absurd (
          cc (
            (string_eq.test_iff (String.◌∷◌ c s) (String.◌∷◌ d t)).1 (
              ap₂ String.◌∷◌ (Char-path c d ((nat_eq.test_iff (code c) (code d)).0 same))
                ((string_eq.test_iff s t).0 eq))))
      | inr differ ↦ differ
    ]

-- The id is below the first one of the entries.
abbrev Below : {E : Type 0} → String → Entries E → Type 0
Below id [] = Unit
Below id (e ∷ es) = text_ltb id (e.0) ≡ true

-- The ids ascend.
abbrev pub IsAscending : {E : Type 0} → Entries E → Type 0
IsAscending [] = Unit
IsAscending (e ∷ es) = Below (e.0) es × IsAscending es

-- The entry of the first input that has one under the id.
abbrev pub first_entry : {E : Type 0} → String → List (Source E) → Option E
first_entry id [] = none
first_entry id (one o ∷ is) = first_entry id is
first_entry id (whole s ∷ is) = or_else (get id (get_or s.ledger [])) (first_entry id is)

or_else_assoc {ℓ} :
    {A : Type ℓ} (a b c : Option A) → or_else (or_else a b) c ≡ or_else a (or_else b c)
or_else_assoc none b c = refl
or_else_assoc (some a) b c = refl

module _ {E : Type 0} where
  place-Below :
      (id : String) (e : String × E) (es : Entries E)
      → text_ltb id (e.0) ≡ true
      → Below id es
      → Below id (place e es)
  unfolding place
  place-Below id e [] h b = h
  place-Below id e (f ∷ es) h b = elim (Bool-cases (text_ltb (f.0) (e.0))) [
    | inl less ↦ rw less b
    | inr more ↦ rw more h
  ]

  place-IsAscending :
      (e : String × E) (es : Entries E)
      → contains (e.0) (keys es) ≡ false
      → IsAscending es
      → IsAscending (place e es)
  unfolding place
  place-IsAscending e [] n h = (tt, tt)
  place-IsAscending (id, v) ((j, w) ∷ es) n (b, h) = elim (Bool-cases (text_ltb j id)) [
    | inl less ↦
        rw less (place-Below j (id, v) es less b, place-IsAscending (id, v) es (ground arith) h)
    | inr more ↦ rw more (text_ltb_total j id more (ground arith), (b, h))
  ]

  contains-keys-place :
      (k : String) (e : String × E) (es : Entries E)
      → contains k (keys (place e es)) ≡ (e.0 == k || contains k (keys es))
  unfolding place
  contains-keys-place k (id, v) [] = refl
  contains-keys-place k (id, v) ((j, w) ∷ es) = ground (arith, contains-keys-place k (id, v) es)

  get-place :
      (k : String) (id : String) (v : E) (es : Entries E)
      → contains id (keys es) ≡ false
      → get k (place (id, v) es) ≡ (if id == k then some v else get k es)
  unfolding place get
  get-place k id v [] n = refl
  get-place k id v ((j, w) ∷ es) n = elim (Bool-cases (text_ltb j id)) [
    | inl less ↦
        rw (less, get-place k id v es (ground arith))
          (ground (arith, string_eq.test_iff id k, string_eq.test_iff j k, string_eq.test_iff j id))
    | inr more ↦ rw more refl
  ]

  contains-keys-sorted :
      (k : String) (es : Entries E) → contains k (keys (sorted es)) ≡ contains k (keys es)
  unfolding sorted
  contains-keys-sorted k [] = refl
  contains-keys-sorted k ((j, w) ∷ es) =
      rw (contains-keys-place k (j, w) (sorted es), contains-keys-sorted k es) refl

  sorted-IsAscending : (es : Entries E) → IsUnique (keys es) → IsAscending (sorted es)
  unfolding sorted
  sorted-IsAscending [] u = tt
  sorted-IsAscending ((j, w) ∷ es) (n, u) =
      place-IsAscending (j, w) (sorted es) (contains-keys-sorted j es ∙ n) (sorted-IsAscending es u)

  get-sorted : (k : String) (es : Entries E) → IsUnique (keys es) → get k (sorted es) ≡ get k es
  unfolding sorted get
  get-sorted k [] u = refl
  get-sorted k ((j, w) ∷ es) (n, u) =
      rw (get-place k j w (sorted es) (contains-keys-sorted j es ∙ n), get-sorted k es u) refl

  contains-keys : (k : String) (m : Entries E) → contains k (keys m) ≡ is_some (get k m)
  unfolding get
  contains-keys k [] = refl
  contains-keys k ((j, w) ∷ m) = ground (arith, contains-keys k m)

  add_new-IsUnique : (es m : Entries E) → IsUnique (keys m) → IsUnique (keys (add_new es m))
  unfolding add_new
  add_new-IsUnique [] m u = u
  add_new-IsUnique ((id, v) ∷ es) m u = elim (Bool-cases (contains id (keys m))) [
    | inl old ↦ rw old (add_new-IsUnique es m u)
    | inr new ↦ rw new (add_new-IsUnique es (put id v m) (put-IsUnique id v m u))
  ]

  get-add_new :
      (k : String) (es m : Entries E) → get k (add_new es m) ≡ or_else (get k m) (get k es)
  unfolding add_new get
  get-add_new k [] m = ground arith
  get-add_new k ((id, v) ∷ es) m = elim (Bool-cases (contains id (keys m))) [
    | inl old ↦
        rw (old, get-add_new k es m) (ground (arith, contains-keys id m, string_eq.test_iff id k))
    | inr new ↦
        rw (new, get-add_new k es (put id v m), get-put id k v m)
          (ground (arith, contains-keys id m, string_eq.test_iff id k))
  ]

  collect-IsUnique :
      (is : List (Source E)) (m : Entries E) → IsUnique (keys m) → IsUnique (keys (collect is m))
  unfolding collect
  collect-IsUnique [] m u = u
  collect-IsUnique (one o ∷ is) m u = collect-IsUnique is m u
  collect-IsUnique (whole s ∷ is) m u =
      collect-IsUnique is (add_new (get_or s.ledger []) m)
        (add_new-IsUnique (get_or s.ledger []) m u)

  get-collect :
      (k : String) (is : List (Source E)) (m : Entries E)
      → get k (collect is m) ≡ or_else (get k m) (first_entry k is)
  unfolding collect
  get-collect k [] m = ground arith
  get-collect k (one o ∷ is) m = get-collect k is m
  get-collect k (whole s ∷ is) m =
      rw (get-collect k is (add_new (get_or s.ledger []) m), get-add_new k (get_or s.ledger []) m)
        (or_else_assoc (get k m) (get k (get_or s.ledger [])) (first_entry k is))

-- When an input has a ledger, the merged one has its ids in ascending order, and under each id the
-- entry of the first input whose ledger has the id.
pub merge_ledgers_first :
    {E : Type 0} (is : List (Source E))
    → has_ledger is ≡ true
    → (m : Entries E) × (merge_ledgers is ≡ some m)
      × IsAscending m
      × ((k : String) → get k m ≡ first_entry k is)
unfolding merge_ledgers get
merge_ledgers_first is h =
    let u = collect-IsUnique is [] tt in
    (
      sorted (collect is []),
      rw h refl,
      sorted-IsAscending (collect is []) u,
      λ k. get-sorted k (collect is []) u ∙ get-collect k is [],
    )

-- The versions that the inputs carry.
abbrev pub versions : {E : Type 0} → List (Source E) → List ℕ
versions [] = []
versions (one o ∷ is) = versions is
versions (whole s ∷ is) = elim s.schema_version [ none ↦ versions is | some v ↦ v ∷ versions is ]

max_from_lem :
    {E : Type 0} (is : List (Source E)) (start : Option ℕ) (m : ℕ)
    → max_from is start ≡ some m
    → ((start ≡ some m) ⊎ (contains m (versions is) ≡ true))
      × (get_or start m ≤ m)
      × All (λ v. v ≤ m) (versions is)
max_from_lem [] start m h = (inl h, rw h (omega arith), tt)
max_from_lem (one o ∷ is) start m h = max_from_lem is start m h
max_from_lem (whole s ∷ is) start m h = elim (Option-cases s.schema_version) [
  | inl absent ↦ rw absent (max_from_lem is start m (rw absent at h))
  | inr (v, given) ↦ rw given (
      let (a, b, c) = max_from_lem is (some (larger start v)) m (rw given at h) in
      chosen start a b c)
]
  where
    chosen :
        {v : ℕ} (start : Option ℕ)
        → ((some (larger start v) ≡ some m) ⊎ (contains m (versions is) ≡ true))
        → larger start v ≤ m
        → All (λ u. u ≤ m) (versions is)
        → ((start ≡ some m) ⊎ (contains m (v ∷ versions is) ≡ true))
          × (get_or start m ≤ m)
          × All (λ u. u ≤ m) (v ∷ versions is)
    chosen {v} none (inl e) b c = (inr (ground (arith, nat_eq.test_iff v m)), omega arith, (b, c))
    chosen {v} none (inr e) b c = (inr (ground arith), omega arith, (b, c))
    chosen {v} (some w) e b c = elim (Bool-cases (ltb w v)) [
      | inl less ↦ (
        elim e [ inl f ↦ inr (ground (arith, nat_eq.test_iff v m)) | inr f ↦ inr (ground arith) ],
        ground arith,
        (ground arith, c),
      )
      | inr more ↦ (
        elim e [ inl f ↦ inl (ground arith) | inr f ↦ inr (ground arith) ],
        ground arith,
        (ground arith, c),
      )
    ]

-- The merged schema version is one that an input carries, and none that an input carries is larger.
pub merge_schema_versions_max :
    {E : Type 0} (is : List (Source E)) (m : ℕ)
    → merge_schema_versions is ≡ some m
    → (contains m (versions is) ≡ true) × All (λ v. v ≤ m) (versions is)
unfolding merge_schema_versions
merge_schema_versions_max is m h =
    let (a, b, c) = max_from_lem is none m h in (elim a [ inl e ↦ cc | inr e ↦ e ], c)
