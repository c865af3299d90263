-- ===== src/Tests/Aliases.antt =====
-- services/alias.go, run on samples.
use wakapi.Base.{◌≡◌, refl, true, [], ◌∷◌, none, codes, text_eq}
use wakapi.Table.{get}
use wakapi.Entity.{summary, project, entity_code}
use wakapi.Heartbeat.{Naming, canonical_name}
use wakapi.AliasService.{Alias, Cache, first_match, get_alias_or_default, delete}
use wakapi.AliasService.Resolution.{delete-get_alias_or_default}
use wakapi.Tests.Samples.{ada}

abbrev pub plain : Naming
plain = record { canonical_names = λ t. none; to_lower = λ v. v; capitalize = λ v. v }

abbrev pub antenna : Alias
antenna = record {
  id = 1;
  type = summary project;
  user_id = ada.id;
  key = codes "wakapi";
  value = codes "antenna";
}

abbrev cached : Cache
cached = (ada.id, antenna ∷ []) ∷ []

abbrev uncached : Cache
uncached = (ada.id, []) ∷ []

delete-get_alias_or_default_example :
    ((delete antenna true cached).0 ≡ none)
    × ((get_alias_or_default plain text_eq ada.id
          (summary project)
          (codes "antenna")
          none
          (delete antenna true cached).1).0
        ≡ codes "wakapi")
unfolding get text_eq first_match entity_code canonical_name
delete-get_alias_or_default_example =
    delete-get_alias_or_default plain text_eq (summary project) (codes "antenna") none antenna
      (antenna ∷ []) cached refl (codes "wakapi") refl refl
