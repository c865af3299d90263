-- ===== src/HeartbeatService/Entities.antt =====
-- services/heartbeat.go: the cached sets of a user's entities of a type. `strings.TrimSpace` is a
-- parameter. Adding to a set is one step; in the code it runs beside the insertion of the heartbeat.
use wakapi.Base.{
  Bool, not, List, [], ◌∷◌, ◌++◌, Option, none, some, Text, is_empty, if◌then◌else◌, text_eq, any,
  keep, ◌&&◌, ◌==◌,
}
use wakapi.Entity.{
  Entity, summary, ai_model, project, language, editor, os, machine, branch, entity, category,
  entity_code,
}
use wakapi.Heartbeat.{Heartbeat}

-- A type, a user and the set under them.
pub record EntitySet : Type 0 where
  pub type : Entity
  pub user_id : Text
  pub entities : List Text

abbrev pub EntityCache : Type 0
EntityCache = List EntitySet

unfoldable pub is_under : Entity → Text → EntitySet → Bool
is_under t user s = (entity_code s.type == entity_code t) && text_eq s.user_id user

unfoldable pub find_set : Entity → Text → EntityCache → Option (List Text)
unfolding is_under
find_set t user [] = none
find_set t user (s ∷ ss) = if is_under t user s then some s.entities else find_set t user ss

-- What is not blank of the repository's answer, which is none on an error, is put into the cache.
unfoldable pub get_entity_set_by_user :
    (trim : Text → Text)
    → (answer : Option (List Text)) → Entity
    → Text
    → EntityCache
    → Option (List Text) × EntityCache
unfolding find_set
get_entity_set_by_user trim answer t user cache = elim (find_set t user cache) [
  | some entities ↦ (some entities, cache)
  | none ↦ elim answer [
    | none ↦ (none, cache)
    | some results ↦
        let filtered = keep (λ r. not (is_empty (trim r))) results in
        (some filtered, record { type = t; user_id = user; entities = filtered } ∷ cache)
  ]
]

unfoldable pub add_entity : Text → List Text → List Text
add_entity key entities =
    if any (λ e. text_eq e key) entities then entities else entities ++ key ∷ []

unfoldable pub update_entity_user_cache :
    Entity → (key : Text) → (user : Text) → EntityCache → EntityCache
unfolding add_entity is_under
update_entity_user_cache t key user [] = []
update_entity_user_cache t key user (s ∷ ss) =
    let rest = update_entity_user_cache t key user ss in
    if is_under t user s then record s { entities = add_entity key s.entities } ∷ ss else s ∷ rest

unfoldable pub update_entity_user_cache_by_heartbeat : Heartbeat → EntityCache → EntityCache
unfolding update_entity_user_cache
update_entity_user_cache_by_heartbeat h cache =
    let put =
      λ (t : Entity) (key : Text) (c : EntityCache). update_entity_user_cache t key h.user_id c in
    put ai_model h.ai_model (
      put (summary category) h.category (
        put (summary entity) h.entity (
          put (summary branch) h.branch (
            put (summary machine) h.machine (
              put (summary os) h.operating_system (
                put (summary editor) h.editor
                  (put (summary language) h.language (put (summary project) h.project cache))))))))
