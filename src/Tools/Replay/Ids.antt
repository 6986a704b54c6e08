-- ===== src/Tools/Replay/Ids.antt =====
-- The ids that a recording hands out, and those that stand for them in the replay.
use openport_j.Base.{
  ℕ, ◌^◌, ◌<◌, ◌≡◌, refl, ap, ◌∙◌, Bool, true, false, [], ◌∷◌, ◌++◌, Option, some, none, arith,
  ◌==◌, if◌then◌else◌, length,
}
use openport_j.Base.{lt→ltb}
use openport_j.Device.Message.{Message}
use openport_j.Api.Record.{
  Call, recorded, rec_result, app_open, app_connect, app_start_msg_filter, app_start_periodic_msg,
}
use openport_j.Tools.Replay.Numbers.{strtoul-decimal}
use openport_j.Tools.Replay.Recorded.{replays, IsCall}
use openport_j.Tools.Replay.Calls.{tokens-rec_line, replay_line-recorded}
use openport_j.Tools.Replay.Maps.{
  IdMap, Maps, map_find, map_get, map_put, map_replace, or_itself, put_known,
}
use openport_j.Tools.Replay.Lines.{
  Last, nothing, opened, connected, filtered, started, ReplayState, learn, replay_tokens,
  replay_line,
}

abbrev RoomWhere : IdMap → ℕ → Option ℕ → Type 0
RoomWhere m cap none = length m < cap
RoomWhere m cap (some old) = Unit

-- The id is known, or there is room for it.
abbrev pub HasRoom : IdMap → ℕ → ℕ → Type 0
HasRoom m cap id = RoomWhere m cap (map_find m id)

map_find-append :
    (m : IdMap) (id live other : ℕ)
    → map_find m id ≡ none
    → map_find (m ++ ((id, live) ∷ [])) other
      ≡ (if other == id then some live else map_find m other)
unfolding map_find
map_find-append [] id live other h = ground arith
map_find-append ((recorded, old) ∷ m) id live other h =
    ground (arith, map_find-append m id live other)

map_find-map_replace :
    (m : IdMap) (id live other old : ℕ)
    → map_find m id ≡ some old
    → map_find (map_replace m id live) other ≡ (if other == id then some live else map_find m other)
unfolding map_find map_replace
map_find-map_replace [] id live other old h = absurd (cc h)
map_find-map_replace ((recorded, before) ∷ m) id live other old h =
    ground (arith, map_find-map_replace m id live other old)

map_find-map_put :
    (m : IdMap) (cap id live other : ℕ)
    → HasRoom m cap id
    → map_find (map_put m cap id live) other ≡ (if other == id then some live else map_find m other)
unfolding map_put
map_find-map_put m cap id live other r = put (map_find m id) refl r
  where
    put :
        (f : Option ℕ)
        → map_find m id ≡ f
        → RoomWhere m cap f
        → map_find (put_known m cap id live f) other
          ≡ (if other == id then some live else map_find m other)
    put none e r = rw (lt→ltb (length m) cap r) (map_find-append m id live other e)
    put (some old) e r = map_find-map_replace m id live other old e

-- The table of the ids that a call hands out, and its size.
abbrev pub table : Last → Maps → IdMap
table nothing m = []
table opened m = m.dev
table connected m = m.ch
table filtered m = m.filt
table started m = m.per

abbrev pub table_max : Last → ℕ
table_max nothing = 0
table_max opened = 4
table_max connected = 16
table_max filtered = 64
table_max started = 16

map_find-learn :
    (m : Maps) (kind : Last) (id live other : ℕ)
    → HasRoom (table kind m) (table_max kind) id
    → map_find (table kind (learn m kind id live)) other
      ≡ (if other == id then some live else map_find (table kind m) other)
unfolding learn
map_find-learn m nothing id live other r = absurd (unfold map_find in omega (arith, r))
map_find-learn m opened id live other r = map_find-map_put m.dev 4 id live other r
map_find-learn m connected id live other r = map_find-map_put m.ch 16 id live other r
map_find-learn m filtered id live other r = map_find-map_put m.filt 64 id live other r
map_find-learn m started id live other r = map_find-map_put m.per 16 id live other r

-- The calls that hand out an id.
pub data HandsOut : Last → Call → Type 0 where
  hands_device : HandsOut opened app_open
  hands_channel :
      {dev protocol flags baud : ℕ} → HandsOut connected (app_connect dev protocol flags baud)
  hands_filter :
      {ch filter_type : ℕ} {mask pattern flow : Option Message}
      → HandsOut filtered (app_start_msg_filter ch filter_type mask pattern flow)
  hands_periodic :
      {ch interval : ℕ} {m : Option Message}
      → HandsOut started (app_start_periodic_msg ch m interval)

replays-last :
    {kind : Last} {call : Call} (s : ReplayState) (live : ℕ)
    → HandsOut kind call
    → let after = (replays s call live).0 in
      (after.maps ≡ s.maps) × (after.last ≡ kind) × (after.last_live ≡ live)
replays-last s live hands_device = (refl, refl, refl)
replays-last s live hands_channel = (refl, refl, refl)
replays-last s live hands_filter = (refl, refl, refl)
replays-last s live hands_periodic = (refl, refl, refl)

replay_line-rec_result :
    (s : ReplayState) (id live : ℕ)
    → id < 2 ^ 64
    → (replay_line s (rec_result id) live).0.maps ≡ learn s.maps s.last id s.last_live
unfolding rec_result replay_line replay_tokens
replay_line-rec_result s id live h =
    ap (λ ts. (replay_tokens s ts live).0.maps) (tokens-rec_line b'=' [] (id ∷ []) (refl, tt))
    ∙ rw (strtoul-decimal id h) refl

after_call-maps :
    (s : ReplayState) (kind : Last) (call : Call) (id live : ℕ)
    → HandsOut kind call
    → IsCall call
    → id < 2 ^ 64
    → (replay_line (replay_line s (recorded call) live).0 (rec_result id) live).0.maps
      ≡ learn s.maps kind id live
after_call-maps s kind call id live hands c h =
    let (m, k, l) = replays-last s live hands in
    ap (λ out. (replay_line out.0 (rec_result id) live).0.maps) (replay_line-recorded s call live c)
    ∙ replay_line-rec_result (replays s call live).0 id live h
    ∙ rw (m, k, l) refl

or_itself-if :
    (b : Bool) (live : ℕ) (f : Option ℕ) (id : ℕ)
    → or_itself (if b then some live else f) id ≡ (if b then live else or_itself f id)
or_itself-if true live f id = refl
or_itself-if false live f id = refl

-- A recorded call that hands out an id, and the line with that id: the replay takes the id for the
-- one that the other library handed out, and every other id of its kind for what it was taken for
-- before. The table has room for the id, or the id is in it.
pub replay_line-Maps :
    (s : ReplayState) (kind : Last) (call : Call) (id live other : ℕ)
    → HandsOut kind call
    → IsCall call
    → id < 2 ^ 64
    → HasRoom (table kind s.maps) (table_max kind) id
    → let after = (replay_line (replay_line s (recorded call) live).0 (rec_result id) live).0 in
      map_get (table kind after.maps) other
      ≡ (if other == id then live else map_get (table kind s.maps) other)
unfolding map_get
replay_line-Maps s kind call id live other hands c h r =
    ap (λ m. or_itself (map_find (table kind m) other) other)
      (after_call-maps s kind call id live hands c h)
    ∙ ap (λ f. or_itself f other) (map_find-learn s.maps kind id live other r)
    ∙ or_itself-if (other == id) live (map_find (table kind s.maps) other) other
