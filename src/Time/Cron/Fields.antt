-- ===== src/Time/Cron/Fields.antt =====
-- Which values a cron field stands for.
use almadar_runtime.Base.{
  ℕ, zero, suc, ◌+◌, ◌-◌, ◌≤◌, ◌<◌, ◌≡◌, refl, sym, ap, ap₂, ◌∙◌, ◌≢◌, ◌↔◌, true, false, ◌||◌, List,
  [], ◌∷◌, ◌++◌, none, some, ◌==◌, nat_eq, ◌>>=◌, contains, contains-append, ℤ, pos, pos_+ℤ_pos,
  leb_ℤ, ℤ_eq, arith, All-append, >>=-eq-some,
}
use almadar_runtime.Time.Digits.{
  codes, text_eq, split_on, split_on-append, split_on_free, value, IsDigits, FreeOf, digits-FreeOf,
  parse_int_digits, to_number_digits, ne-nil_of_value,
}
use almadar_runtime.Time.Cron.{walk, up_to, parse_part, add_all, add_parts, parse_cron_field}
use almadar_runtime.Time.Cron.Parts.{
  gathered, add_parts-gathered, gathered-append, contains-add_all, contains-run_up, IsMultiple,
  walk_multiples,
}

contains_free : (sep : ℕ) (s : List ℕ) → FreeOf sep s → contains sep s ≡ false
contains_free sep [] h = refl
contains_free sep (c ∷ s) (n, h) = ground (arith, contains_free sep s h)

free-append : (sep : ℕ) (s t : List ℕ) → FreeOf sep s → FreeOf sep t → FreeOf sep (s ++ t)
free-append sep s t h k = All-append (λ c. c ≢ sep) s t h k

-- A field of one part.
pub parse_cron_field_single :
    (fuel : ℕ) (part : List ℕ) (min max : ℕ)
    → FreeOf b',' part
    → parse_cron_field fuel part min max
      ≡ (parse_part fuel part min max >>= λ vs. some (add_all vs []))
unfolding parse_cron_field add_parts
parse_cron_field_single fuel part min max h = rw (split_on_free b',' part h)

pub contains_added : (v : ℤ) (vs : List ℤ) → contains v (add_all vs []) ≡ contains v vs
contains_added v vs = rw (contains-add_all v vs []) (ground arith)

parse_part_step :
    (fuel : ℕ) (ds : List ℕ) (min max : ℕ)
    → IsDigits ds
    → ds ≢ []
    → parse_part fuel (codes "*/" ++ ds) min max ≡ walk fuel (pos min) (pos (value ds)) max
unfolding parse_part split_on
parse_part_step fuel ds min max h n =
    rw (split_on_free b'/' ds (digits-FreeOf b'/' ds refl h), parse_int_digits ds h n)

step_free : (ds : List ℕ) → IsDigits ds → FreeOf b',' (codes "*/" ++ ds)
step_free ds h = (omega arith, (omega arith, digits-FreeOf b',' ds refl h))

-- The field `*/n`, for a row of digits of value 1 or more, is read to the end, and stands for the
-- values min, min + n, min + 2n, … up to max, and for no other; fuel above max + 1 - min is enough.
pub parse_cron_field_step :
    (fuel : ℕ) (ds : List ℕ) (min max : ℕ)
    → IsDigits ds
    → 0 < value ds
    → suc max - min < fuel
    → (values : List ℤ) × (parse_cron_field fuel (codes "*/" ++ ds) min max ≡ some values)
      × ((v : ℕ) → (contains (pos v) values ≡ true) ↔ IsMultiple min (value ds) max v)
parse_cron_field_step fuel ds min max h p enough =
    let (vs, done, mem) = walk_multiples fuel min (value ds) max p enough in
    (
      add_all vs [],
      rw (
        parse_cron_field_single fuel (codes "*/" ++ ds) min max (step_free ds h),
        parse_part_step fuel ds min max h (ne-nil_of_value ds p),
        done,
      ),
      λ v. rw (contains_added (pos v) vs) (mem v),
    )

walk_still : (fuel i max : ℕ) → i ≤ max → walk fuel (pos i) (pos 0) max ≡ none
unfolding walk
walk_still zero i max le = refl
walk_still (suc fuel) i max le =
    let same : i + 0 ≡ i = omega arith in
    let within : leb_ℤ (pos i) (pos max) ≡ true = ground arith in
    rw (within, pos_+ℤ_pos i 0, same, walk_still fuel i max le)

-- The field `*/0` is never read to the end, whatever the fuel: its loop adds 0 for ever.
pub parse_cron_field_zero_step :
    (fuel : ℕ) (ds : List ℕ) (min max : ℕ)
    → IsDigits ds
    → ds ≢ []
    → value ds ≡ 0
    → min ≤ max
    → parse_cron_field fuel (codes "*/" ++ ds) min max ≡ none
parse_cron_field_zero_step fuel ds min max h n z le = rw (
  parse_cron_field_single fuel (codes "*/" ++ ds) min max (step_free ds h),
  parse_part_step fuel ds min max h n,
  z,
  walk_still fuel min max le,
)

star_ne : (lo hi : List ℕ) → ((lo ++ b'-' ∷ hi) == codes "*") ≡ false
star_ne [] hi = refl
star_ne (d ∷ []) hi = ground arith
star_ne (d ∷ e ∷ lo) hi = ground arith

parse_part_range :
    (fuel : ℕ) (lo hi : List ℕ) (min max : ℕ)
    → IsDigits lo
    → IsDigits hi
    → parse_part fuel (lo ++ b'-' ∷ hi) min max ≡ some (up_to (value lo) (value hi))
unfolding parse_part
parse_part_range fuel lo hi min max h k =
    let free =
      free-append b'/' lo (b'-' ∷ hi) (digits-FreeOf b'/' lo refl h)
        (omega arith, digits-FreeOf b'/' hi refl k) in
    let dash : contains b'-' (lo ++ b'-' ∷ hi) ≡ true =
      rw (contains-append b'-' lo (b'-' ∷ hi)) (ground arith) in
    let star : ((lo ++ b'-' ∷ hi) == codes "*") ≡ false = star_ne lo hi in
    rw (
      star,
      contains_free b'/' (lo ++ b'-' ∷ hi) free,
      dash,
      split_on-append b'-' lo hi,
      split_on_free b'-' lo (digits-FreeOf b'-' lo refl h),
      split_on_free b'-' hi (digits-FreeOf b'-' hi refl k),
      to_number_digits lo h,
      to_number_digits hi k,
    )

-- The field `lo-hi`, for two rows of digits, stands for the values from lo up to and with hi, and for
-- no other, whatever the bounds of the field.
pub parse_cron_field_range :
    (fuel : ℕ) (lo hi : List ℕ) (min max : ℕ)
    → IsDigits lo
    → IsDigits hi
    → (values : List ℤ) × (parse_cron_field fuel (lo ++ b'-' ∷ hi) min max ≡ some values)
      × ((v : ℕ) → (contains (pos v) values ≡ true) ↔ ((value lo ≤ v) × (v ≤ value hi)))
parse_cron_field_range fuel lo hi min max h k =
    let free =
      free-append b',' lo (b'-' ∷ hi) (digits-FreeOf b',' lo refl h)
        (omega arith, digits-FreeOf b',' hi refl k) in
    (
      add_all (up_to (value lo) (value hi)) [],
      rw (
        parse_cron_field_single fuel (lo ++ b'-' ∷ hi) min max free,
        parse_part_range fuel lo hi min max h k,
      ),
      λ v.
          rw
            (
              contains_added (pos v) (up_to (value lo) (value hi)),
              contains-run_up v (suc (value hi) - value lo) (value lo),
            )
            (ground arith),
    )

gathered_of_field :
    (fuel : ℕ) (field : List ℕ) (min max : ℕ) {values : List ℤ}
    → parse_cron_field fuel field min max ≡ some values
    → (vs : List ℤ) × (gathered fuel (split_on b',' field) min max ≡ some vs)
      × (add_all vs [] ≡ values)
unfolding parse_cron_field
gathered_of_field fuel field min max h =
    let (vs, e, same) =
      >>=-eq-some (gathered fuel (split_on b',' field) min max) _
        (sym (add_parts-gathered fuel (split_on b',' field) min max []) ∙ h) in
    (vs, e, ground arith)

-- A field `a,b` that is read to the end stands for the values of `a` and those of `b`.
pub parse_cron_field_union :
    (fuel : ℕ) (a b : List ℕ) (min max : ℕ) {va vb : List ℤ}
    → parse_cron_field fuel a min max ≡ some va
    → parse_cron_field fuel b min max ≡ some vb
    → (values : List ℤ) × (parse_cron_field fuel (a ++ b',' ∷ b) min max ≡ some values)
      × ((v : ℤ) → contains v values ≡ (contains v va || contains v vb))
unfolding parse_cron_field
parse_cron_field_union fuel a b min max {va} {vb} h k =
    let (xs, ex, sx) = gathered_of_field fuel a min max h in
    let (ys, ey, sy) = gathered_of_field fuel b min max k in
    (
      add_all (xs ++ ys) [],
      rw (
        add_parts-gathered fuel (split_on b',' (a ++ b',' ∷ b)) min max [],
        split_on-append b',' a b,
        gathered-append fuel (split_on b',' a) (split_on b',' b) min max ex ey,
      ),
      λ v.
          contains_added v (xs ++ ys)
          ∙ contains-append v xs ys
          ∙ sym (
              ap₂ ◌||◌ (ap (contains v) (sym sx) ∙ contains_added v xs)
                (ap (contains v) (sym sy) ∙ contains_added v ys)),
    )
