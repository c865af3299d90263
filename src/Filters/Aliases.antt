-- ===== src/Filters/Aliases.antt =====
-- models/filters.go: WithAliases and WithProjectLabels, which widen the filters.
use wakapi.Base.{
  ℕ, ◌+◌, ◌-◌, ◌≡◌, refl, Bool, true, false, not, ◌&&◌, ◌||◌, List, [], ◌∷◌, ◌++◌, none, some, Text,
  if◌then◌else◌, Bool-cases, inl, inr, length, length-append, any, arith, ◌≤◌,
}
use wakapi.Entity.{
  project, language, editor, os, machine, label, branch, entity, category, Entity, summary,
  ai_model, unknown_type,
}
use wakapi.Duration.{Duration}
use wakapi.Filters.{
  OrFilter, Filters, exists, match_one, match_any, size, resolve_type, with_multiple,
  match_duration, allows, count_by_type,
}

abbrev pub AliasReverseResolver : Type 0
AliasReverseResolver = Entity → Text → List Text

abbrev pub ProjectLabelReverseResolver : Type 0
ProjectLabelReverseResolver = Text → List Text

-- Each alternative, followed by its aliases.
unfoldable pub expand : (Text → List Text) → List Text → List Text
expand resolve [] = []
expand resolve (e ∷ es) = e ∷ (resolve e ++ expand resolve es)

abbrev pub expanded : (Text → List Text) → OrFilter → OrFilter
expanded resolve none = none
expanded resolve (some fs) = some (expand resolve fs)

-- `aliasCount` is written for the types whose filter is not nil, and not for entities and labels.
abbrev pub count_aliases : AliasReverseResolver → Filters → Entity → ℕ
count_aliases resolve f t = elim (resolve_type t f) [
  | none ↦ f.alias_count t
  | some fs ↦ length (expand (resolve t) fs) - length fs
]

unfoldable pub alias_counts : AliasReverseResolver → Filters → Entity → ℕ
alias_counts resolve f (summary label) = f.alias_count (summary label)
alias_counts resolve f (summary entity) = f.alias_count (summary entity)
alias_counts resolve f unknown_type = f.alias_count unknown_type
alias_counts resolve f t = count_aliases resolve f t

unfoldable pub with_aliases : AliasReverseResolver → Filters → Filters
unfolding expand
with_aliases resolve f = if f.has_resolved_aliases then f else record f {
  alias_count = alias_counts resolve f;
  project = expanded (resolve (summary project)) f.project;
  os = expanded (resolve (summary os)) f.os;
  language = expanded (resolve (summary language)) f.language;
  editor = expanded (resolve (summary editor)) f.editor;
  machine = expanded (resolve (summary machine)) f.machine;
  branch = expanded (resolve (summary branch)) f.branch;
  category = expanded (resolve (summary category)) f.category;
  ai_model = expanded (resolve ai_model) f.ai_model;
  has_resolved_aliases = true;
}

unfoldable pub add_labels : ProjectLabelReverseResolver → List Text → Filters → Filters
unfolding with_multiple
add_labels resolve [] f = f
add_labels resolve (l ∷ ls) f =
    add_labels resolve ls (with_multiple (summary project) (resolve l) f)

unfoldable pub with_project_labels : ProjectLabelReverseResolver → Filters → Filters
unfolding add_labels exists
with_project_labels resolve f = elim f.label [
  | none ↦ f
  | some ls ↦
      if not (exists f.label) || f.has_resolved_project_labels
      then f
      else (let g = add_labels resolve ls f in record g { has_resolved_project_labels = true })
]

-- A filter that lets a text through if it matches an alternative or one of its aliases.
abbrev pub allows_aliased : (Text → List Text) → OrFilter → Text → Bool
allows_aliased resolve none search = true
allows_aliased resolve (some fs) search =
    any (λ e. match_one search e || match_any (resolve e) search) fs

any-append {ℓ} :
    {A : Type ℓ} (p : A → Bool) (xs ys : List A) → any p (xs ++ ys) ≡ (any p xs || any p ys)
unfolding any
any-append p [] ys = ground arith
any-append p (x ∷ xs) ys = ground (arith, any-append p xs ys)

match_any-expand :
    (resolve : Text → List Text) (fs : List Text) (search : Text)
    → match_any (expand resolve fs) search
      ≡ any (λ e. match_one search e || match_any (resolve e) search) fs
unfolding match_any expand any
match_any-expand resolve [] search = refl
match_any-expand resolve (e ∷ es) search = ground (
  arith,
  any-append (match_one search) (resolve e) (expand resolve es),
  match_any-expand resolve es search,
)

pub allows-expanded :
    (resolve : Text → List Text) (f : OrFilter) (search : Text)
    → allows (expanded resolve f) search ≡ allows_aliased resolve f search
allows-expanded resolve none search = refl
allows-expanded resolve (some fs) search = match_any-expand resolve fs search

-- After its aliases are resolved for the first time, a filter lets a duration through exactly when, for each type with
-- a filter, the duration matches an alternative or an alias of one; entities have no aliases.
pub match_duration-with_aliases :
    (resolve : AliasReverseResolver) (f : Filters) (d : Duration)
    → f.has_resolved_aliases ≡ false
    → match_duration (with_aliases resolve f) d ≡ (
        allows_aliased (resolve (summary project)) f.project d.project
        && allows_aliased (resolve (summary os)) f.os d.operating_system
        && allows_aliased (resolve (summary language)) f.language d.language
        && allows_aliased (resolve (summary editor)) f.editor d.editor
        && allows_aliased (resolve (summary machine)) f.machine d.machine
        && allows_aliased (resolve (summary branch)) f.branch d.branch
        && allows f.entity d.entity
        && allows_aliased (resolve (summary category)) f.category d.category
        && allows_aliased (resolve ai_model) f.ai_model d.ai_model)
unfolding match_duration with_aliases
match_duration-with_aliases resolve f d h = rw h (simp allows-expanded)

with_aliases_resolved :
    (resolve : AliasReverseResolver) (f : Filters)
    → f.has_resolved_aliases ≡ true
    → with_aliases resolve f ≡ f
unfolding with_aliases
with_aliases_resolved resolve f h = rw h

has_resolved_aliases-with_aliases :
    (resolve : AliasReverseResolver) (f : Filters)
    → (with_aliases resolve f).has_resolved_aliases ≡ true
has_resolved_aliases-with_aliases resolve f = elim (Bool-cases f.has_resolved_aliases) [
  | inl h ↦ rw (with_aliases_resolved resolve f h) h
  | inr h ↦ unfold with_aliases in rw h
]

-- Resolving aliases a second time, with whatever resolver, changes nothing.
with_aliases-with_aliases :
    (resolve again : AliasReverseResolver) (f : Filters)
    → with_aliases again (with_aliases resolve f) ≡ with_aliases resolve f
with_aliases-with_aliases resolve again f =
    with_aliases_resolved again (with_aliases resolve f)
      (has_resolved_aliases-with_aliases resolve f)

any_mono {ℓ} :
    {A : Type ℓ} (p q : A → Bool) (xs : List A)
    → ((x : A) → p x ≡ true → q x ≡ true)
    → any p xs ≡ true
    → any q xs ≡ true
unfolding any
any_mono p q [] h e = e
any_mono p q (x ∷ xs) h e = ground (arith, h x, any_mono p q xs h)

allows_widens :
    (resolve : Text → List Text) (f : OrFilter) (search : Text)
    → allows f search ≡ true
    → allows_aliased resolve f search ≡ true
unfolding match_any
allows_widens resolve none search h = refl
allows_widens resolve (some fs) search h = any_mono _ _ fs (λ e m. rw m) h

and_mono :
    (a b c d : Bool)
    → (a ≡ true → b ≡ true)
    → (c ≡ true → d ≡ true)
    → (a && c) ≡ true
    → (b && d) ≡ true
and_mono true b c d f g h = rw (f refl) (g h)
and_mono false b c d f g h = cc

-- Resolving aliases only widens: what a filter let through it still lets through.
with_aliases-widens :
    (resolve : AliasReverseResolver) (f : Filters) (d : Duration)
    → match_duration f d ≡ true
    → match_duration (with_aliases resolve f) d ≡ true
with_aliases-widens resolve f d h = elim (Bool-cases f.has_resolved_aliases) [
  | inl e ↦ rw (with_aliases_resolved resolve f e) h
  | inr e ↦ rw (match_duration-with_aliases resolve f d e) (
      and_mono _ _ _ _
        (and_mono _ _ _ _
          (and_mono _ _ _ _
            (and_mono _ _ _ _
              (and_mono _ _ _ _
                (and_mono _ _ _ _
                  (and_mono _ _ _ _
                    (and_mono _ _ _ _ (allows_widens _ f.project _) (allows_widens _ f.os _))
                    (allows_widens _ f.language _))
                  (allows_widens _ f.editor _))
                (allows_widens _ f.machine _))
              (allows_widens _ f.branch _))
            (λ m. m))
          (allows_widens _ f.category _))
        (allows_widens _ f.ai_model _) (unfold match_duration in h))
]

length-expand-le :
    (resolve : Text → List Text) (fs : List Text) → length fs ≤ length (expand resolve fs)
unfolding expand
length-expand-le resolve [] = omega arith
length-expand-le resolve (e ∷ es) =
    omega (arith, length-append (resolve e) (expand resolve es), length-expand-le resolve es)

size-expanded :
    (resolve : AliasReverseResolver) (f : Filters) (t : Entity)
    → f.alias_count t ≡ 0
    → size (expanded (resolve t) (resolve_type t f))
      ≡ size (resolve_type t f) + count_aliases resolve f t
unfolding size
size-expanded resolve f t e = size_lem (resolve_type t f) refl
  where
    size_lem :
        (o : OrFilter)
        → resolve_type t f ≡ o
        → size (expanded (resolve t) (resolve_type t f))
          ≡ size (resolve_type t f) + count_aliases resolve f t
    size_lem none h = rw (h, count_aliases) (omega arith)
    size_lem (some fs) h = rw (h, count_aliases) (omega (arith, length-expand-le (resolve t) fs))

-- When aliases are resolved for the first time, and none are counted, the filters of a type grow by
-- as many alternatives as are counted as its aliases.
count_by_type-with_aliases :
    (resolve : AliasReverseResolver) (f : Filters) (t : Entity)
    → f.has_resolved_aliases ≡ false
    → ((u : Entity) → f.alias_count u ≡ 0)
    → count_by_type t (with_aliases resolve f)
      ≡ count_by_type t f + (with_aliases resolve f).alias_count t
unfolding count_by_type with_aliases alias_counts
count_by_type-with_aliases resolve f (summary entity) h zero_count =
    rw h (omega (arith, zero_count (summary entity)))
count_by_type-with_aliases resolve f (summary label) h zero_count =
    rw h (omega (arith, zero_count (summary label)))
count_by_type-with_aliases resolve f unknown_type h zero_count =
    rw h (omega (arith, zero_count unknown_type))
count_by_type-with_aliases resolve f t h zero_count =
    rw h (size-expanded resolve f t (zero_count t))
