-- ===== src/Geo/Table.antt =====
-- The zone of a country in the parsed table, by a search through the rows of the file.
use mathlib.Core.List.{lookup}
use solverr.Base.{
  ◌≡◌, refl, sym, ap, ◌∙◌, true, Option, none, some, List, [], ◌∷◌, if◌then◌else◌, is_some, arith,
}
use solverr.Base.Dict.{put, lookup-put, IsDistinct, put-IsDistinct}
use solverr.Base.Text.{Text, Text-discrete, text_eq}
use solverr.Geo.Zones.{
  Table, among, row, set_default, share, put_row, tables, merge, merged_or, zone_table, File,
}

-- The zone of a row if the row speaks for a country, and if it names it.
unfoldable pub led : Text → Option (Text × List Text × Text) → Option Text
led c none = none
led c (some (first, others, zone)) = if text_eq first c then some zone else none

unfoldable pub named : Text → Option (Text × List Text × Text) → Option Text
named c none = none
named c (some (first, others, zone)) = if among (first ∷ others) c then some zone else none

-- The first of two that is there.
abbrev pub first_some : Option Text → Option Text → Option Text
first_some (some z) o = some z
first_some none o = o

-- The zone of the first row that speaks for a country, and of the first that names it.
unfoldable pub led_by : Text → List Text → Option Text
unfolding led
led_by c [] = none
led_by c (line ∷ lines) = first_some (led c (row line)) (led_by c lines)

unfoldable pub naming : Text → List Text → Option Text
unfolding named
naming c [] = none
naming c (line ∷ lines) = first_some (named c (row line)) (naming c lines)

lookup-set_default :
    (k j zone : Text) (d : Table)
    → lookup Text-discrete j (set_default k zone d)
      ≡ first_some (lookup Text-discrete j d) (if text_eq k j then some zone else none)
unfolding set_default
lookup-set_default k j zone d = ground (arith, lookup-put Text-discrete k j zone d)

lookup-share :
    (cs : List Text) (j zone : Text) (d : Table)
    → lookup Text-discrete j (share cs zone d)
      ≡ first_some (lookup Text-discrete j d) (if among cs j then some zone else none)
unfolding share
lookup-share [] j zone d = ground arith
lookup-share (c ∷ cs) j zone d =
    ground (arith, lookup-share cs j zone (set_default c zone d), lookup-set_default c j zone d)

first_some_assoc :
    (a b c : Option Text) → first_some (first_some a b) c ≡ first_some a (first_some b c)
first_some_assoc a b c = ground arith

set_default-IsDistinct :
    (k zone : Text) (d : Table)
    → IsDistinct Text-discrete d
    → IsDistinct Text-discrete (set_default k zone d)
unfolding set_default
set_default-IsDistinct k zone d h = ground (arith, put-IsDistinct Text-discrete k zone d h)

lookup-merge :
    (j : Text) (shared own : Table)
    → IsDistinct Text-discrete own
    → lookup Text-discrete j (merge shared own)
      ≡ first_some (lookup Text-discrete j own) (lookup Text-discrete j shared)
unfolding merge lookup
lookup-merge j shared [] h = refl
lookup-merge j shared ((k, v) ∷ own) h = ground (
  arith,
  lookup-merge j (put Text-discrete k v shared) own h.1,
  lookup-put Text-discrete k j v shared,
)

put_row-IsDistinct :
    (r : Option (Text × List Text × Text)) (t : Table × Table)
    → IsDistinct Text-discrete t.0
    → IsDistinct Text-discrete (put_row r t).0
unfolding put_row
put_row-IsDistinct none t h = h
put_row-IsDistinct (some (first, others, zone)) (own, shared) h =
    set_default-IsDistinct first zone own h

lookup-put_row :
    (j : Text) (r : Option (Text × List Text × Text)) (t : Table × Table)
    → (lookup Text-discrete j (put_row r t).0 ≡ first_some (lookup Text-discrete j t.0) (led j r))
      × (lookup Text-discrete j (put_row r t).1
          ≡ first_some (lookup Text-discrete j t.1) (named j r))
unfolding put_row led named
lookup-put_row j none t = (ground arith, ground arith)
lookup-put_row j (some (first, others, zone)) (own, shared) =
    (lookup-set_default first j zone own, lookup-share (first ∷ others) j zone shared)

-- What the lines of a file put into the two tables.
tables_lem :
    (j : Text) (lines : List Text) (t : Table × Table)
    → IsDistinct Text-discrete t.0
    → IsDistinct Text-discrete (tables lines t).0
      × (lookup Text-discrete j (tables lines t).0
          ≡ first_some (lookup Text-discrete j t.0) (led_by j lines))
      × (lookup Text-discrete j (tables lines t).1
          ≡ first_some (lookup Text-discrete j t.1) (naming j lines))
unfolding tables led_by naming
tables_lem j [] t h = (h, ground arith, ground arith)
tables_lem j (line ∷ lines) t h =
    let ih = tables_lem j lines (put_row (row line) t) (put_row-IsDistinct (row line) t h) in
    let step = lookup-put_row j (row line) t in
    (
      ih.0,
      ih.1
          ∙ ap (λ o. first_some o (led_by j lines)) step.0
          ∙ first_some_assoc (lookup Text-discrete j t.0) (led j (row line)) (led_by j lines),
      ih.2
          ∙ ap (λ o. first_some o (naming j lines)) step.1
          ∙ first_some_assoc (lookup Text-discrete j t.1) (named j (row line)) (naming j lines),
    )

lookup-merged_or :
    (j : Text) (later : Table) (t : Table × Table)
    → IsDistinct Text-discrete t.0
    → is_some (first_some (lookup Text-discrete j t.0) (lookup Text-discrete j t.1)) ≡ true
    → lookup Text-discrete j (merged_or later t)
      ≡ first_some (lookup Text-discrete j t.0) (lookup Text-discrete j t.1)
unfolding merged_or lookup
lookup-merged_or j later ([], []) h i = ground arith
lookup-merged_or j later ([], r ∷ rs) h i = lookup-merge j (r ∷ rs) [] h
lookup-merged_or j later (r ∷ rs, shared) h i = lookup-merge j shared (r ∷ rs) h

-- The zone of a country that a row of the first file names is that of the first row that speaks for
-- it, before any row that only names it; without such a row it is that of the first that names it.
pub zone_table-lookup :
    (c : Text) (lines : List Text) (files : List File)
    → is_some (first_some (led_by c lines) (naming c lines)) ≡ true
    → lookup Text-discrete c (zone_table (some lines ∷ files))
      ≡ first_some (led_by c lines) (naming c lines)
unfolding zone_table
zone_table-lookup c lines files h =
    let t = tables_lem c lines ([], []) tt in
    rw (sym t.1, sym t.2)
      (lookup-merged_or c (zone_table files) (tables lines ([], [])) t.0 (rw (t.1, t.2) h))
