-- ===== src/Tools/Replay/Inputs.antt =====
-- What is recorded of the inputs of a call.
use openport_j.Base.{
  ℕ, suc, ◌^◌, ◌≤◌, ◌<◌, ◌≡◌, refl, ap, ◌==◌, List, [], ◌∷◌, Option, some, none, map, arith, length,
  length-take, take, min, if_either,
}
use openport_j.Base.All.{All, All-take}
use openport_j.Device.Message.{Message}
use openport_j.Api.Record.{recorded_of, recorded_pairs, without_values, alone}
use openport_j.Tools.Replay.Messages.{IsRecorded}
use openport_j.Tools.Replay.Parameters.{ArePairs}
use openport_j.Tools.Replay.Recorded.{ArrayIsRecorded, InputIsRecorded}

map-some-AreRecorded :
    (ms : List Message) → All (λ m. IsRecorded (some m)) ms → All IsRecorded (map some ms)
map-some-AreRecorded [] a = tt
map-some-AreRecorded (m ∷ ms) (h, a) = (h, map-some-AreRecorded ms a)

length-map-some : (ms : List Message) → length (map (λ m. some m) ms) ≡ length ms
length-map-some [] = refl
length-map-some (m ∷ ms) = ap suc (length-map-some ms)

pub recorded_of-AreRecorded :
    (ms : Option (List Message)) (n : ℕ) → ArrayIsRecorded ms → All IsRecorded (recorded_of ms n)
recorded_of-AreRecorded none n a = tt
recorded_of-AreRecorded (some ms) n a =
    map-some-AreRecorded (take (min n 64) ms) (All-take (λ m. IsRecorded (some m)) (min n 64) ms a)

pub length-recorded_of : (ms : Option (List Message)) (n : ℕ) → length (recorded_of ms n) ≤ min n 64
length-recorded_of none n = omega arith
length-recorded_of (some ms) n =
    omega (arith, length-map-some (take (min n 64) ms), length-take (min n 64) ms)

pub alone-IsRecorded : (m : Option Message) → IsRecorded m → ArrayIsRecorded (alone m)
alone-IsRecorded none a = tt
alone-IsRecorded (some m) a = (a, tt)

without_values-ArePairs : (cfg : List (ℕ × ℕ)) → ArePairs cfg → ArePairs (without_values cfg)
without_values-ArePairs [] a = tt
without_values-ArePairs ((parameter, value) ∷ cfg) ((p, v), a) =
    ((p, omega arith), without_values-ArePairs cfg a)

length-without_values : (cfg : List (ℕ × ℕ)) → length (without_values cfg) ≡ length cfg
length-without_values [] = refl
length-without_values ((parameter, value) ∷ cfg) = ap suc (length-without_values cfg)

pub recorded_pairs-ArePairs :
    (ioctl : ℕ) (input : Option (List (ℕ × ℕ)))
    → InputIsRecorded input
    → ArePairs (recorded_pairs ioctl input)
recorded_pairs-ArePairs ioctl none a = tt
recorded_pairs-ArePairs ioctl (some cfg) a =
    if_either ArePairs (ioctl == 2) _ _ short
      (if_either ArePairs (ioctl == 1) _ _ (without_values-ArePairs (take 32 cfg) short) tt)
  where
    short : ArePairs (take 32 cfg)
    short = All-take (λ p. (p.0 < 2 ^ 64) × (p.1 < 2 ^ 64)) 32 cfg a

pub length-recorded_pairs :
    (ioctl : ℕ) (input : Option (List (ℕ × ℕ))) → length (recorded_pairs ioctl input) ≤ 32
length-recorded_pairs ioctl none = omega arith
length-recorded_pairs ioctl (some cfg) =
    if_either (λ c. length c ≤ 32) (ioctl == 2) _ _ (omega (arith, length-take 32 cfg))
      (if_either (λ c. length c ≤ 32) (ioctl == 1) _ _
        (omega (arith, length-without_values (take 32 cfg), length-take 32 cfg)) (omega arith))
