-- ===== src/SummaryService/Aliased/Times.antt =====
-- services/summary.go: the times of the summary that Aliased gives, and what it answers again.
use wakapi.Base.{
  ◌≡◌, ◌≢◌, refl, sym, ap, ◌∙◌, Bool, true, false, not, ◌&&◌, List, [], Option, none, some,
  Option-cases, Bool-cases, inl, inr, Text, text_eq, ℤ, pos, sum_by, sum_by-perm, arith,
}
use wakapi.Runtime.{Runtime}
use wakapi.Table.{Table, put, get-put_self}
use wakapi.Entity.{SummaryType, project, label, branch, entity, same_type, same_type_comm}
use wakapi.User.{User}
use wakapi.Filters.{Filters, is_project_details}
use wakapi.AliasService.{Alias, Cache, initialize_user}
use wakapi.Summary.{
  Item, Summary, by_total, sorted, seconds, get_by_type, total_time_by, total_time_by_key,
  find_first_present_type,
}
use wakapi.Summary.Totals.{total_time_by_key-seconds, keyed}
use wakapi.Summary.Fill.{fill_by, fill_missing, fill_by_ne}
use wakapi.Summary.Missing.{fill_missing-kept, total_time_by_nil}
use wakapi.Summary.Aliases.{
  resolved_to, with_resolved_aliases, with_resolved_aliases-total_time_by,
  with_resolved_aliases-total_time_by_key,
}
use wakapi.SummaryService.Labels.{with_project_labels}
use wakapi.SummaryService.Labels.Totals.{get_by_type-with_project_labels}
use wakapi.SummaryService.Summarize.Totals.{get_by_type-sorted}
use wakapi.SummaryService.Aliased.{
  Lookups, Retriever, alias_resolver, processed_filters, without_details, post_processed, is_whole,
  cache_key, cached_summary, aliased,
}

-- Types that are neither filled in from projects nor dropped where no details are wanted, nor free of
-- aliases.
abbrev pub is_plain : SummaryType → Bool
is_plain t = not (same_type t label) && not (same_type t branch) && not (same_type t entity)

get_by_type-without_details :
    (filters : Option Filters) (t : SummaryType) (s : Summary)
    → is_plain t ≡ true
    → get_by_type t (without_details filters s) ≡ get_by_type t s
unfolding without_details get_by_type same_type
get_by_type-without_details filters t s h = elim (Bool-cases (is_project_details filters)) [
  | inl e ↦ rw (e, without_details) refl
  | inr e ↦ rw (e, without_details) (plain t h)
]
  where
    plain :
        (t : SummaryType)
        → is_plain t ≡ true
        → get_by_type t (record s { branches = []; entities = [] }) ≡ get_by_type t s
    plain project h = refl
    plain branch h = cc
    plain entity h = cc
    plain _ h = refl

fill_missing_present :
    (t : SummaryType) (s : Summary)
    → get_by_type t s ≢ []
    → get_by_type t (fill_missing s) ≡ get_by_type t s
unfolding fill_missing
fill_missing_present t s h = elim (Option-cases (find_first_present_type s)) [
  | inr (p, e) ↦ fill_missing-kept s p t e h
  | inl e ↦ rw (e, fill_missing) (ground arith)
]

total_time_by_key-sorted :
    (rt : Runtime) (t : SummaryType) (k : Text) (s : Summary)
    → total_time_by_key t k (sorted rt s) ≡ total_time_by_key t k s
total_time_by_key-sorted rt t k s =
    total_time_by_key-seconds t k (sorted rt s)
    ∙ ap seconds (
        ap (sum_by (keyed k)) (get_by_type-sorted rt t s)
        ∙ sum_by-perm (keyed k) (rt.sort-perm Item by_total (get_by_type t s)))
    ∙ sym (total_time_by_key-seconds t k s)

total_time_by_key_same :
    (t : SummaryType) (k : Text) (s u : Summary)
    → get_by_type t s ≡ get_by_type t u
    → total_time_by_key t k s ≡ total_time_by_key t k u
total_time_by_key_same t k s u e =
    total_time_by_key-seconds t k s
    ∙ ap (λ is. seconds (sum_by (keyed k) is)) e
    ∙ sym (total_time_by_key-seconds t k u)

-- What is done behind the aliases leaves a plain type alone that has time.
post_processed-total_time_by_key :
    (w : Lookups) (user : Text) (c : Cache) (filters : Option Filters) (t : SummaryType) (k : Text)
    (s : Summary)
    → is_plain t ≡ true
    → total_time_by t s ≢ pos 0
    → total_time_by_key t k (post_processed w user c filters s)
      ≡ seconds
          (sum_by (resolved_to (alias_resolver w user c) (λ j. text_eq j k)) (get_by_type t s))
unfolding post_processed
post_processed-total_time_by_key w user c filters t k s h some_time =
    let resolve = alias_resolver w user c in
    let aliases = with_resolved_aliases resolve s in
    let labels = with_project_labels w.runtime w.labels aliases in
    let filled = fill_by project label labels in
    let not_label : same_type t label ≡ false = ground arith in
    let label_not : same_type label t ≡ false = same_type_comm t label false not_label in
    let not_entity : same_type t entity ≡ false = ground arith in
    let as_aliases =
      fill_by_ne project label t labels label_not
      ∙ get_by_type-with_project_labels w.runtime w.labels t aliases not_label in
    let present : get_by_type t filled ≢ [] = λ e. some_time (
      sym (with_resolved_aliases-total_time_by resolve t s)
      ∙ total_time_by_nil t aliases (sym as_aliases ∙ e)) in
    total_time_by_key_same t k _ aliases (
      get_by_type-without_details filters t _ h
      ∙ fill_missing_present t filled present
      ∙ as_aliases)
    ∙ with_resolved_aliases-total_time_by_key resolve t k s not_entity

module _ (w : Lookups) (from to : ℤ) (user : User) (filters : Option Filters)
    (custom_timeout : Option ℤ) where
  key : Text
  key = cache_key w from to user filters custom_timeout

  aliased_cached :
      (f : Retriever) (m : Summary) (cache : Table Summary) (c : Cache)
      → cached_summary w from to key false cache ≡ some m
      → (aliased w from to user f filters custom_timeout false cache c).0
        ≡ some (sorted w.runtime m)
  unfolding aliased key
  aliased_cached f m cache c hit = simp (hit, aliased) refl

  found :
      (k : Text) (m : Summary) (cache : Table Summary)
      → (is_whole to && is_whole from) ≡ true
      → cached_summary w from to k false (put k m cache) ≡ some m
  unfolding cached_summary
  found k m cache exact = ground (arith, exact, get-put_self k m cache)

  aliased_fresh :
      (f : Retriever) (skip_cache : Bool) (cache : Table Summary) (c : Cache) (xs : List Alias)
      (s : Summary)
      → cached_summary w from to key skip_cache cache ≡ none
      → w.aliases ≡ some xs
      → f from to user (processed_filters w user.id c filters) custom_timeout ≡ some s
      → (whole : Summary) × (whole
          ≡ sorted w.runtime (
              post_processed w user.id
                (initialize_user user.id w.aliases c)
                (processed_filters w user.id c filters)
                s))
        × ((aliased w from to user f filters custom_timeout skip_cache cache c).0 ≡ some whole)
        × ((aliased w from to user f filters custom_timeout skip_cache cache c).1
            ≡ put key whole cache)
        × ((aliased w from to user f filters custom_timeout skip_cache cache c).3
            ≡ processed_filters w user.id c filters)
  unfolding aliased key
  aliased_fresh f skip_cache cache c xs s missed known got = (
    _,
    refl,
    simp (missed, known, got, aliased) refl,
    simp (missed, known, got, aliased) refl,
    simp (missed, known, got, aliased) refl,
  )

  -- Where the cache does not answer, the aliases are known, and a summary is retrieved for the filters
  -- with labels and aliases resolved, Aliased gives a summary. In it a type that has time, labels,
  -- branches and entities aside, has under each key the time of all retrieved items of the type whose
  -- keys resolve to it.
  pub aliased-total_time_by_key :
      (f : Retriever) (skip_cache : Bool) (cache : Table Summary) (c : Cache) (xs : List Alias)
      (s : Summary) (t : SummaryType) (k : Text)
      → cached_summary w from to (cache_key w from to user filters custom_timeout) skip_cache cache
        ≡ none
      → w.aliases ≡ some xs
      → f from to user (processed_filters w user.id c filters) custom_timeout ≡ some s
      → is_plain t ≡ true
      → total_time_by t s ≢ pos 0
      → (m : Summary) × ((aliased w from to user f filters custom_timeout skip_cache cache c).0
          ≡ some m)
        × (total_time_by_key t k m
            ≡ seconds (
                sum_by
                  (resolved_to
                    (alias_resolver w user.id (initialize_user user.id w.aliases c))
                    (λ j. text_eq j k))
                  (get_by_type t s)))
  unfolding key
  aliased-total_time_by_key f skip_cache cache c xs s t k missed known got plain some_time =
      let (whole, made, answer, stored, changed) =
        aliased_fresh f skip_cache cache c xs s missed known got in
      let c' = initialize_user user.id w.aliases c in
      let used = processed_filters w user.id c filters in
      (
        whole,
        answer,
        ap (total_time_by_key t k) made
            ∙ total_time_by_key-sorted w.runtime t k (post_processed w user.id c' used s)
            ∙ post_processed-total_time_by_key w user.id c' used t k s plain some_time,
      )

  -- Between whole seconds Aliased answers a second call with the summary of the first, sorted again,
  -- whatever the retriever would give by then, if its filters are equal to those of the first as these
  -- were before it. The first call changes its filters where they are: they come to be those that the
  -- summary was retrieved for.
  pub aliased-aliased :
      (f g : Retriever) (skip_cache : Bool) (cache : Table Summary) (c later : Cache)
      (xs : List Alias) (s : Summary)
      → (is_whole to && is_whole from) ≡ true
      → cached_summary w from to (cache_key w from to user filters custom_timeout) skip_cache cache
        ≡ none
      → w.aliases ≡ some xs
      → f from to user (processed_filters w user.id c filters) custom_timeout ≡ some s
      → (m : Summary) × ((aliased w from to user f filters custom_timeout skip_cache cache c).0
          ≡ some m)
        × ((aliased w from to user g filters custom_timeout false
              (aliased w from to user f filters custom_timeout skip_cache cache c).1
              later).0
            ≡ some (sorted w.runtime m))
        × ((aliased w from to user f filters custom_timeout skip_cache cache c).3
            ≡ processed_filters w user.id c filters)
  unfolding key
  aliased-aliased f g skip_cache cache c later xs s exact missed known got =
      let (whole, made, answer, stored, changed) =
        aliased_fresh f skip_cache cache c xs s missed known got in
      (
        whole,
        answer,
        rw stored
            (aliased_cached g whole (put key whole cache) later (found key whole cache exact)),
        changed,
      )
