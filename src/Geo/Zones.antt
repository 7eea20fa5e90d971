-- ===== src/Geo/Zones.antt =====
-- geo.py: the system's table of time zones. A file of it is the list of its lines, without their line
-- ends; `none` is a file that cannot be read. The files do not change, so the parsed tables are not
-- kept here.
use mathlib.Core.List.{lookup}
use native.Mathlib.Decide.{ℕ_discrete}
use solverr.Base.{
  Bool, true, false, not, ◌&&◌, ◌||◌, Option, none, some, List, [], ◌∷◌, ◌==◌, if◌then◌else◌,
  length, is_some, keep, map,
}
use solverr.Base.Dict.{put}
use solverr.Base.Text.{Text, Text-discrete, text_eq, codes, starts_with, strip, upper, split}
use solverr.Config.Language.{is_alpha, all_codes}

abbrev pub Table : Type 0
Table = List (Text × Text)

abbrev pub File : Type 0
File = Option (List Text)

abbrev pub is_blank_text : Text → Bool
is_blank_text s = text_eq (strip s) []

-- `[c.strip().upper() for c in column.split(',') if c.strip()]`
unfoldable pub countries_of : Text → List Text
unfolding strip upper split Text-discrete ℕ_discrete
countries_of column =
    map (λ c. upper (strip c)) (keep (λ c. not (is_blank_text c)) (split b',' column))

-- The first and the third column of a line that has three and is no comment.
unfoldable pub columns : Text → Option (Text × Text)
unfolding split strip
columns line = if starts_with line (codes "#") then none else (elim (split 9 line) [
  | [] ↦ none
  | a ∷ r ↦ elim r [ [] ↦ none | b ∷ q ↦ elim q [ [] ↦ none | c ∷ more ↦ some (a, strip c) ] ]
])

-- A row: the country it speaks for, the others that it names, and its zone.
unfoldable pub row : Text → Option (Text × List Text × Text)
unfolding columns countries_of
row line = elim (columns line) [
  | none ↦ none
  | some (names, zone) ↦ elim (countries_of names) [
    | [] ↦ none
    | first ∷ others ↦ some (first, others, zone)
  ]
]

-- `d.setdefault(k, v)`
unfoldable pub set_default : Text → Text → Table → Table
unfolding put lookup Text-discrete ℕ_discrete
set_default k v d = if is_some (lookup Text-discrete k d) then d else put Text-discrete k v d

unfoldable pub share : List Text → Text → Table → Table
unfolding set_default
share [] zone d = d
share (c ∷ cs) zone d = share cs zone (set_default c zone d)

-- `own` and `shared` behind a row.
unfoldable pub put_row : Option (Text × List Text × Text) → Table × Table → Table × Table
unfolding share set_default
put_row none t = t
put_row (some (first, others, zone)) (own, shared) =
    (set_default first zone own, share (first ∷ others) zone shared)

-- `own` and `shared` behind the lines of a file.
unfoldable pub tables : List Text → Table × Table → Table × Table
unfolding row put_row
tables [] t = t
tables (line ∷ lines) t = tables lines (put_row (row line) t)

-- `{**shared, **own}`
unfoldable pub merge : Table → Table → Table
unfolding put Text-discrete ℕ_discrete
merge shared [] = shared
merge shared ((k, v) ∷ own) = merge (put Text-discrete k v shared) own

-- `if own or shared`
unfoldable pub merged_or : Table → Table × Table → Table
unfolding merge
merged_or later ([], []) = later
merged_or later ([], r ∷ rs) = merge (r ∷ rs) []
merged_or later (r ∷ rs, shared) = merge shared (r ∷ rs)

-- `_zone_table`: the first file that has a row.
unfoldable pub zone_table : List File → Table
unfolding tables merged_or
zone_table [] = []
zone_table (none ∷ files) = zone_table files
zone_table (some lines ∷ files) = merged_or (zone_table files) (tables lines ([], []))

unfoldable pub names_in : List Text → List Text
unfolding columns
names_in [] = []
names_in (line ∷ lines) =
    let rest = names_in lines in
    elim (columns line) [ none ↦ rest | some (names, zone) ↦ zone ∷ rest ]

-- `_all_zone_names`
unfoldable pub all_zone_names : List File → List Text
unfolding names_in
all_zone_names [] = []
all_zone_names (none ∷ files) = all_zone_names files
all_zone_names (some lines ∷ files) =
    let later = all_zone_names files in elim (names_in lines) [ [] ↦ later | z ∷ zs ↦ z ∷ zs ]

abbrev pub among : List Text → Text → Bool
among [] t = false
among (s ∷ ss) t = text_eq s t || among ss t

-- The system's zones: the files of the table, and `zoneinfo.available_timezones()`.
pub record System : Type 0 where
  pub files : List File
  pub available : List Text

-- `_linked_zones`
unfoldable pub is_linked : System → Text → Bool
unfolding Text-discrete ℕ_discrete
is_linked sys name =
    among sys.available name
    && not (text_eq name (codes "localtime") || text_eq name (codes "Factory"))

-- `is_known_zone`: without a table every name is.
unfoldable pub is_known_zone : System → Text → Bool
unfolding all_zone_names is_linked Text-discrete ℕ_discrete
is_known_zone sys name = elim (all_zone_names sys.files) [
  | [] ↦ true
  | z ∷ zs ↦ among (z ∷ zs) name || is_linked sys name
]

unfoldable pub last_of : Text → List Text → Text
last_of p [] = p
last_of p (q ∷ ps) = last_of q ps

-- `_region_of`
unfoldable pub region_of : Text → Option Text
unfolding split last_of all_codes is_alpha upper
region_of tag = elim (split b'-' tag) [
  | [] ↦ none
  | p ∷ ps ↦ elim ps [
    | [] ↦ none
    | q ∷ qs ↦
        let last = last_of q qs in
        if length last == 2 && all_codes is_alpha last then some (upper last) else none
  ]
]

-- `_POPULATION_ZONES`
abbrev pub population_zones : Table
population_zones =
    (codes "AU", codes "Australia/Sydney")
    ∷ (codes "BR", codes "America/Sao_Paulo")
    ∷ (codes "CA", codes "America/Toronto")
    ∷ (codes "RU", codes "Europe/Moscow")
    ∷ []

-- `_zone_for_region`
unfoldable pub zone_for_region : System → Text → Option Text
unfolding zone_table all_zone_names lookup Text-discrete ℕ_discrete
zone_for_region sys region =
    let picked = lookup Text-discrete region (zone_table sys.files) in
    elim (lookup Text-discrete region population_zones) [
      | none ↦ picked
      | some zone ↦ if among (all_zone_names sys.files) zone then some zone else picked
    ]

-- `s or None`
abbrev pub non_empty : Text → Option Text
non_empty [] = none
non_empty (c ∷ s) = some (c ∷ s)

abbrev pub non_empty_text : Option Text → Option Text
non_empty_text none = none
non_empty_text (some s) = non_empty s

-- `_zone_from_geo`, for the tag that `config.browser_geo` reads; an empty zone is none.
unfoldable pub zone_from_geo : System → Option Text → Option Text
unfolding region_of zone_for_region
zone_from_geo sys none = none
zone_from_geo sys (some tag) = elim (region_of tag) [
  | none ↦ none
  | some region ↦ non_empty_text (zone_for_region sys region)
]

abbrev pub utc : Text
utc = codes "UTC"

-- `container_timezone`, for the value of TZ.
unfoldable pub container_timezone : System → Text → Text
unfolding is_known_zone strip Text-discrete ℕ_discrete
container_timezone sys tz =
    if is_blank_text tz then utc else (if is_known_zone sys (strip tz) then strip tz else utc)
