-- ===== src/Tools/Replay/Maps.antt =====
-- The ids of a recording and those that stand for them: `map_get`, `map_put` and `map_any` of
-- tools/ab-official/j2534_trace.c.
use openport_j.Base.{ℕ, List, [], ◌∷◌, ◌++◌, Option, none, some, ltb, ◌==◌, if◌then◌else◌, length}

-- Pairs of a recorded id and the one that stands for it.
abbrev pub IdMap : Type 0
IdMap = List (ℕ × ℕ)

-- `none` where the id was never mapped.
unfoldable pub map_find : IdMap → ℕ → Option ℕ
map_find [] id = none
map_find ((recorded, live) ∷ m) id = if recorded == id then some live else map_find m id

abbrev pub or_itself : Option ℕ → ℕ → ℕ
or_itself (some live) id = live
or_itself none id = id

-- An id that was never mapped is used as it is.
unfoldable pub map_get : IdMap → ℕ → ℕ
map_get m id = or_itself (map_find m id) id

unfoldable pub map_replace : IdMap → ℕ → ℕ → IdMap
map_replace [] id live = []
map_replace ((recorded, old) ∷ m) id live =
    if recorded == id then (recorded, live) ∷ m else (recorded, old) ∷ map_replace m id live

-- A known id is mapped anew; another is added while there is room for it.
abbrev pub put_known : IdMap → ℕ → ℕ → ℕ → Option ℕ → IdMap
put_known m cap id live (some old) = map_replace m id live
put_known m cap id live none = if ltb (length m) cap then m ++ ((id, live) ∷ []) else m

unfoldable pub map_put : IdMap → ℕ → ℕ → ℕ → IdMap
map_put m cap id live = put_known m cap id live (map_find m id)

pub record Maps : Type 0 where
  pub dev : IdMap
  pub ch : IdMap
  pub filt : IdMap
  pub per : IdMap

-- The first map that knows the id: the channels', then the devices'.
abbrev pub map_any : Maps → ℕ → ℕ
map_any m id = or_itself (map_find m.ch id) (map_get m.dev id)
