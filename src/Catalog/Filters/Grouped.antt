-- ===== src/Catalog/Filters/Grouped.antt =====
-- What `prepare_filter_groups` (src/services/catalog/utils.py) puts in which group.
use mathlib.Core.Path.{subst}
use fast_api_example.Prelude.{
  if◌then◌else◌, Bool-cases, Option-cases, filter, All, String, ◌≡◌, refl, sym, ap, ◌∙◌, inl, inr,
  Bool, true, false, Option, none, some, List, [], ◌∷◌, ◌++◌, map, append-nil, append_assoc, arith,
  str_eq, eq_iff,
}
use fast_api_example.Database.{Uuid, Db, FilterOrm, FilterGroupOrm}
use fast_api_example.App.{ok, get_by_id}
use fast_api_example.Catalog.Filters.{
  FilterDto, FilterGroup, filters_of, filter_dto, add_filter, filter_loop, prepare_filter_groups,
}

-- The filters of the groups with this title.
abbrev pub titled : String → List FilterGroup → List FilterDto
titled title [] = []
titled title (group ∷ groups) =
    let rest = titled title groups in
    if str_eq group.title title then group.filters ++ rest else rest

-- No group has this title.
abbrev pub IsAbsent : String → List FilterGroup → Type 0
IsAbsent title = All (λ group. str_eq group.title title ≡ false)

-- No two groups have one title.
abbrev pub HasTitles : List FilterGroup → Type 0
HasTitles [] = Unit
HasTitles (group ∷ groups) = IsAbsent group.title groups × HasTitles groups

abbrev pub has_title : String → Option FilterGroupOrm → Bool
has_title title none = false
has_title title (some group) = str_eq group.title title

-- Whether the group of a filter has this title.
abbrev pub is_titled : Db → String → FilterOrm → Bool
is_titled db title f =
    has_title title (get_by_id (λ group. group.id) f.filter_group_id db.filter_groups)

absent_titled :
    (title : String) (groups : List FilterGroup) → IsAbsent title groups → titled title groups ≡ []
absent_titled title [] h = refl
absent_titled title (group ∷ groups) h = rw (h.0, absent_titled title groups h.1) refl

same_title : (a b c : String) → str_eq a b ≡ true → str_eq a c ≡ str_eq b c
same_title a b c h = ap (λ s. str_eq s c) ((eq_iff a b).0 h)

str_eq_flip : (a b : String) → str_eq a b ≡ false → str_eq b a ≡ false
str_eq_flip a b h = elim (Bool-cases (str_eq b a)) [
  | inr e ↦ e
  | inl e ↦
      (let one : str_eq a b ≡ true = (eq_iff a b).1 (sym ((eq_iff b a).0 e)) in
        absurd (ground arith))
]

joined :
    (title : String) (f : FilterOrm) (group : FilterGroupOrm) (made : FilterGroup)
    (groups : List FilterGroup)
    → str_eq made.title group.title ≡ true
    → IsAbsent made.title groups
    → titled title (record made { filters = made.filters ++ filter_dto f ∷ [] } ∷ groups) ≡ (
        if str_eq group.title title
        then titled title (made ∷ groups) ++ filter_dto f ∷ []
        else titled title (made ∷ groups))
joined title f group made groups same absent = elim (Bool-cases (str_eq group.title title)) [
  | inl e ↦
      (let there : str_eq made.title title ≡ true =
          same_title made.title group.title title same ∙ e in
        let gone : titled title groups ≡ [] =
          absent_titled title groups
            (subst (λ t. IsAbsent t groups) ((eq_iff made.title title).0 there) absent) in
        rw (there, e, gone, append-nil (made.filters ++ filter_dto f ∷ []), append-nil made.filters)
          refl)
  | inr e ↦
      (let away : str_eq made.title title ≡ false =
          same_title made.title group.title title same ∙ e in
        rw (away, e) refl)
]

passed :
    (title : String) (f : FilterOrm) (group : FilterGroupOrm) (made : FilterGroup)
    (groups : List FilterGroup)
    → str_eq made.title group.title ≡ false
    → titled title (add_filter f group groups) ≡ (
        if str_eq group.title title
        then titled title groups ++ filter_dto f ∷ []
        else titled title groups)
    → titled title (made ∷ add_filter f group groups) ≡ (
        if str_eq group.title title
        then titled title (made ∷ groups) ++ filter_dto f ∷ []
        else titled title (made ∷ groups))
passed title f group made groups other rest = elim (Bool-cases (str_eq group.title title)) [
  | inl e ↦
      (let away : str_eq made.title title ≡ false =
          sym (ap (λ t. str_eq made.title t) ((eq_iff group.title title).0 e)) ∙ other in
        rw (away, rest, e) refl)
  | inr e ↦ rw (rest, e) refl
]

-- One round of the loop adds the filter to the groups with the title of its own group.
titled-add_filter :
    (title : String) (f : FilterOrm) (group : FilterGroupOrm) (groups : List FilterGroup)
    → HasTitles groups
    → titled title (add_filter f group groups) ≡ (
        if str_eq group.title title
        then titled title groups ++ filter_dto f ∷ []
        else titled title groups)
unfolding add_filter
titled-add_filter title f group [] h = elim (Bool-cases (str_eq group.title title)) [
  | inl e ↦ rw e refl
  | inr e ↦ rw e refl
]
titled-add_filter title f group (made ∷ groups) h =
    elim (Bool-cases (str_eq made.title group.title)) [
      | inl same ↦ rw same (joined title f group made groups same h.0)
      | inr other ↦
          rw other
            (passed title f group made groups other (titled-add_filter title f group groups h.1))
    ]

IsAbsent-add_filter :
    (title : String) (f : FilterOrm) (group : FilterGroupOrm) (groups : List FilterGroup)
    → str_eq group.title title ≡ false
    → IsAbsent title groups
    → IsAbsent title (add_filter f group groups)
unfolding add_filter
IsAbsent-add_filter title f group [] e h = (e, tt)
IsAbsent-add_filter title f group (made ∷ groups) e h =
    elim (Bool-cases (str_eq made.title group.title)) [
      | inl same ↦ rw same (h.0, h.1)
      | inr other ↦ rw other (h.0, IsAbsent-add_filter title f group groups e h.1)
    ]

HasTitles-add_filter :
    (f : FilterOrm) (group : FilterGroupOrm) (groups : List FilterGroup)
    → HasTitles groups
    → HasTitles (add_filter f group groups)
unfolding add_filter
HasTitles-add_filter f group [] h = (tt, tt)
HasTitles-add_filter f group (made ∷ groups) h = elim (Bool-cases (str_eq made.title group.title)) [
  | inl same ↦ rw same (h.0, h.1)
  | inr other ↦ rw other (
    IsAbsent-add_filter made.title f group groups (str_eq_flip made.title group.title other) h.0,
    HasTitles-add_filter f group groups h.1,
  )
]

-- A filter of a group with the title, in the list of `title`.
abbrev pub dtos_titled : Db → String → List FilterOrm → List FilterDto
dtos_titled db title filters = map filter_dto (filter (is_titled db title) filters)

is_titled_of :
    (title : String) (db : Db) (f : FilterOrm) (group : FilterGroupOrm)
    → get_by_id (λ group. group.id) f.filter_group_id db.filter_groups ≡ some group
    → is_titled db title f ≡ str_eq group.title title
is_titled_of title db f group found = ap (has_title title) found

round :
    (title : String) (db : Db) (f : FilterOrm) (group : FilterGroupOrm) (filters : List FilterOrm)
    (groups : List FilterGroup)
    → get_by_id (λ group. group.id) f.filter_group_id db.filter_groups ≡ some group
    → titled title (add_filter f group groups) ≡ (
        if str_eq group.title title
        then titled title groups ++ filter_dto f ∷ []
        else titled title groups)
    → titled title (add_filter f group groups) ++ dtos_titled db title filters
      ≡ titled title groups ++ dtos_titled db title (f ∷ filters)
round title db f group filters groups found step = elim (Bool-cases (str_eq group.title title)) [
  | inl e ↦
      (let here : is_titled db title f ≡ true = is_titled_of title db f group found ∙ e in
        rw (step, e, here)
          (append_assoc (titled title groups) (filter_dto f ∷ []) (dtos_titled db title filters)))
  | inr e ↦
      (let away : is_titled db title f ≡ false = is_titled_of title db f group found ∙ e in
        rw (step, e, away) refl)
]

filter_loop-titled :
    (db : Db) (filters : List FilterOrm) (groups result : List FilterGroup)
    → HasTitles groups
    → filter_loop db filters groups ≡ ok result
    → HasTitles result
      × ((title : String)
          → titled title result ≡ titled title groups ++ dtos_titled db title filters)
unfolding filter_loop
filter_loop-titled db [] groups result h e =
    let same : groups ≡ result = ground arith in
    (
      subst HasTitles same h,
      λ title. ap (titled title) (sym same) ∙ sym (append-nil (titled title groups)),
    )
filter_loop-titled db (f ∷ filters) groups result h e =
    elim (Option-cases (get_by_id (λ group. group.id) f.filter_group_id db.filter_groups)) [
      | inl missing ↦ absurd (ground arith)
      | inr (group, found) ↦
          (let rest =
              filter_loop-titled db filters (add_filter f group groups) result
                (HasTitles-add_filter f group groups h) (ground arith) in
            (
              rest.0,
              λ title.
                  rest.1 title
                  ∙ round title db f group filters groups found
                      (titled-add_filter title f group groups h),
            ))
    ]

-- `prepare_filter_groups` makes one group for a title, and puts into the groups of a title the
-- filters of the product whose own group has that title, each once and in their order.
pub prepare_filter_groups-titled :
    (db : Db) (product_id : Uuid) (result : List FilterGroup)
    → prepare_filter_groups db product_id ≡ ok result
    → HasTitles result
      × ((title : String) → titled title result ≡ dtos_titled db title (filters_of product_id db))
unfolding prepare_filter_groups
prepare_filter_groups-titled db product_id result h =
    filter_loop-titled db (filters_of product_id db) [] result tt h
