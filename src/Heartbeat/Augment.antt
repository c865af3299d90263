-- ===== src/Heartbeat/Augment.antt =====
-- models/heartbeat.go and services/heartbeat.go: Augment gives a heartbeat the language of the mapping
-- with the most dots that ends its entity.
use wakapi.Base.{◌≡◌, ap, List, Option, some, ◌>>=◌, Text, negsuc, map}
use wakapi.Runtime.{Runtime}
use wakapi.Table.{Table, IsTable}
use wakapi.Heartbeat.{Heartbeat}
use wakapi.Duration.{augment_loop}
use wakapi.Duration.Mappings.{loops_agree}

unfoldable pub augment : Runtime → Table Text → Heartbeat → Heartbeat
augment rt mappings h = record h {
  language = (augment_loop h.entity (negsuc 0, h.language) (rt.map_order (Text × Text) mappings)).1;
}

-- The service's `augmented`, none for an error of the mappings.
unfoldable pub augment_all :
    Runtime → Option (Table Text) → List Heartbeat → Option (List Heartbeat)
augment_all rt mappings hs = do ms ← mappings; some (map (augment rt ms) hs)

unfoldable pub get_all_within :
    Runtime
    → (mappings : Option (Table Text)) → (found : Option (List Heartbeat)) → Option (List Heartbeat)
unfolding augment_all
get_all_within rt mappings found = do hs ← found; augment_all rt mappings hs

-- The language that a heartbeat is given does not depend on the order in which the mappings, whose
-- endings are distinct, are walked.
pub augment-order :
    (rt other : Runtime) (mappings : Table Text) (h : Heartbeat)
    → IsTable mappings
    → augment rt mappings h ≡ augment other mappings h
unfolding augment
augment-order rt other mappings h distinct =
    ap (λ best. record h { language = best.1 })
      (loops_agree h.entity (negsuc 0, h.language) (rt.map_order (Text × Text) mappings)
        (other.map_order (Text × Text) mappings) mappings distinct
        (rt.map_order-perm (Text × Text) mappings) (other.map_order-perm (Text × Text) mappings))
