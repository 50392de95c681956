-- ===== src/Executor/Event/Keys.antt =====
-- The order in which a rule iterates an event (sortedKeys of executor/event.go).
use fruitfly.Base.{
  Str, sort_strings, sort_strings-perm, IsAscending, sort_strings-IsAscending, ◌≡◌, ap, List,
}
use mathlib.Core.List.{Permᴰ}
use fruitfly.Types.{Fields}
use fruitfly.Executor.Event.{Cache, keys, sorted_keys, all_values, items}

-- Iteration is deterministic: in whatever order Go visits the map, each key once, sortedKeys gives the
-- same keys in ascending order, and Items the same entries.
pub sorted_keys-IsAscending :
    (visit : List Str → List Str) (m : Fields) (c : Cache)
    → Permᴰ (visit (keys m)) (keys m)
    → IsAscending (sorted_keys visit m)
      × (sorted_keys visit m ≡ sort_strings (keys m))
      × (items visit m c ≡ items (λ ks. ks) m c)
unfolding sorted_keys items
sorted_keys-IsAscending visit m c p = (
  sort_strings-IsAscending (visit (keys m)),
  sort_strings-perm p,
  ap (all_values m c) (sort_strings-perm p),
)
