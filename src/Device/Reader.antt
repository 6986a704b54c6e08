-- ===== src/Device/Reader.antt =====
-- The reader thread, `reader_main` of src/op_device.c.
use openport_j.Base.{
  ℕ, ◌+◌, ◌≤◌, ◌<◌, ◌≡◌, ◌≢◌, refl, sym, ap, ◌∙◌, ◌++◌, append_assoc, true, List, [], ◌∷◌, Option,
  none, some, Bytes, arith, leb, if◌then◌else◌, if_cases, length,
}
use openport_j.Base.All.{All}
use openport_j.Codes.{OpStatus}
use openport_j.Device.State.{Device}
use openport_j.Device.Stream.{reader_take}
use openport_j.Device.World.{Step, arrives, vanishes, step, steps}

-- What one op_read returns: its status and the bytes.
abbrev pub ReadResult : Type 0
ReadResult = OpStatus × Bytes

-- How many failed reads in a row are a lost cable.
abbrev pub failures_max : ℕ
failures_max = 50

-- A read that failed, with `failures` before it: the state, and the count while the loop goes on.
unfoldable pub read_fails : Device → ℕ → Device × Option ℕ
read_fails d failures =
    if leb failures_max (failures + 1)
    then (record d { lost = true }, none)
    else (d, some (failures + 1))

-- The bytes of a read; one without bytes is passed over.
unfoldable pub read_arrives : Device → ℕ → Bytes → Device × Option ℕ
read_arrives d failures [] = (d, some failures)
read_arrives d failures (b ∷ s) = (reader_take d (b ∷ s), some 0)

-- One round of the loop.
unfoldable pub reader_round : Device → ℕ → ReadResult → Device × Option ℕ
reader_round d failures (OpStatus.timeout, s) = (d, some 0)
reader_round d failures (OpStatus.no_device, s) = (record d { lost = true }, none)
reader_round d failures (OpStatus.fine, s) = read_arrives d failures s
reader_round d failures (st, s) = read_fails d failures

abbrev pub go_reading : Device × Option ℕ → (Device → ℕ → Device × Option ℕ) → Device × Option ℕ
go_reading (d, none) rest = (d, none)
go_reading (d, some failures) rest = rest d failures

-- The loop over the reads up to the one after which it sees the stop flag.
unfoldable pub reader_main : Device → ℕ → List ReadResult → Device × Option ℕ
reader_main d failures [] = (d, some failures)
reader_main d failures (r ∷ rs) =
    go_reading (reader_round d failures r) (λ d' failures'. reader_main d' failures' rs)

-- A read that failed in another way than that the cable is gone.
abbrev pub IsFailing : ReadResult → Type 0
IsFailing (st, s) = (st ≢ OpStatus.fine) × (st ≢ OpStatus.timeout) × (st ≢ OpStatus.no_device)

failing_round :
    (d : Device) (failures : ℕ) (r : ReadResult)
    → IsFailing r
    → reader_round d failures r ≡ read_fails d failures
unfolding reader_round
failing_round d failures (OpStatus.fine, s) h = absurd (h.0 refl)
failing_round d failures (OpStatus.timeout, s) h = absurd (h.1 refl)
failing_round d failures (OpStatus.no_device, s) h = absurd (h.2 refl)
failing_round d failures (OpStatus.io, s) h = refl
failing_round d failures (OpStatus.access, s) h = refl
failing_round d failures (OpStatus.mass_storage, s) h = refl
failing_round d failures (OpStatus.param, s) h = refl
failing_round d failures (OpStatus.overflow, s) h = refl
failing_round d failures (OpStatus.protocol, s) h = refl
failing_round d failures (OpStatus.stalled, s) h = refl

-- Failed reads in a row: with fewer than fifty, those before counted, the loop goes on and nothing
-- has changed; the fiftieth marks the cable as lost and ends the loop, whatever would follow.
pub reader_main-failures :
    (d : Device) (failures : ℕ) (fails rs : List ReadResult)
    → All IsFailing fails
    → failures < failures_max
    → (failures + length fails < failures_max
        → reader_main d failures fails ≡ (d, some (failures + length fails)))
      × (failures_max ≤ failures + length fails
          → reader_main d failures (fails ++ rs) ≡ (record d { lost = true }, none))
unfolding reader_main read_fails
reader_main-failures d failures [] rs a l =
    ((λ _. ap (λ n. (d, some n)) (omega arith)), λ many. absurd (omega arith))
reader_main-failures d failures (r ∷ fails) rs (h, a) l = rw (failing_round d failures r h) (
    if_cases P (leb failures_max (failures + 1)) _ _
      (λ last. ((λ few. absurd (ground arith)), λ _. refl))
      (λ more.
        let rest = reader_main-failures d (failures + 1) fails rs a (ground arith) in
        (
          (λ few. rest.0 (omega arith) ∙ ap (λ n. (d, some n)) (omega arith)),
          λ many. rest.1 (omega arith),
        )))
  where
    P : Device × Option ℕ → Type 0
    P o =
        (failures + length (r ∷ fails) < failures_max
          → go_reading o (λ d' failures'. reader_main d' failures' fails)
            ≡ (d, some (failures + length (r ∷ fails))))
        × (failures_max ≤ failures + length (r ∷ fails)
            → go_reading o (λ d' failures'. reader_main d' failures' (fails ++ rs))
              ≡ (record d { lost = true }, none))

-- The bytes that reads hand out, as steps.
abbrev pub arrived_one : ReadResult → List Step
arrived_one (OpStatus.fine, b ∷ s) = arrives (b ∷ s) ∷ []
arrived_one r = []

abbrev pub arrived : List ReadResult → List Step
arrived [] = []
arrived (r ∷ rs) = arrived_one r ++ arrived rs

-- What the loop has done: it runs on after all steps of `ss`, or it has lost the cable after some.
abbrev pub Reads : Device → List Step → Device × Option ℕ → Type 0
Reads d ss (d', some n) = d' ≡ steps d ss
Reads d ss (d', none) =
    (pre : List Step) × (post : List Step) × (ss ≡ pre ++ post)
    × (d' ≡ steps d (pre ++ (vanishes ∷ [])))

fails_Reads : (d : Device) (failures : ℕ) → Reads d [] (read_fails d failures)
unfolding read_fails steps step
fails_Reads d failures =
    if_cases (Reads d []) (leb failures_max (failures + 1)) _ _ (λ _. ([], [], refl, refl))
      (λ _. refl)

round-Reads :
    (d : Device) (failures : ℕ) (r : ReadResult)
    → Reads d (arrived_one r) (reader_round d failures r)
unfolding reader_round read_fails read_arrives steps step
round-Reads d failures (OpStatus.timeout, s) = refl
round-Reads d failures (OpStatus.no_device, s) = ([], [], refl, refl)
round-Reads d failures (OpStatus.fine, []) = refl
round-Reads d failures (OpStatus.fine, b ∷ s) = refl
round-Reads d failures (OpStatus.io, s) = fails_Reads d failures
round-Reads d failures (OpStatus.access, s) = fails_Reads d failures
round-Reads d failures (OpStatus.mass_storage, s) = fails_Reads d failures
round-Reads d failures (OpStatus.param, s) = fails_Reads d failures
round-Reads d failures (OpStatus.overflow, s) = fails_Reads d failures
round-Reads d failures (OpStatus.protocol, s) = fails_Reads d failures
round-Reads d failures (OpStatus.stalled, s) = fails_Reads d failures

steps-append : (d : Device) (ss ts : List Step) → steps d (ss ++ ts) ≡ steps (steps d ss) ts
unfolding steps
steps-append d [] ts = refl
steps-append d (s ∷ ss) ts = steps-append (step d s) ss ts

go_reading-Reads :
    (d : Device) (ss ts : List Step) (o : Device × Option ℕ) (rest : Device → ℕ → Device × Option ℕ)
    → Reads d ss o
    → ((d' : Device) (n : ℕ) → Reads d' ts (rest d' n))
    → Reads d (ss ++ ts) (go_reading o rest)
go_reading-Reads d ss ts (d', none) rest (pre, post, e, e') h =
    (pre, post ++ ts, ap (λ l. l ++ ts) e ∙ append_assoc pre post ts, e')
go_reading-Reads d ss ts (d', some n) rest e h = later (rest d' n) (h d' n)
  where
    later : (o : Device × Option ℕ) → Reads d' ts o → Reads d (ss ++ ts) o
    later (d2, some m) e2 = e2 ∙ ap (λ x. steps x ts) e ∙ sym (steps-append d ss ts)
    later (d2, none) (pre, post, e2, e3) = (
      ss ++ pre,
      post,
      ap (λ l. ss ++ l) e2 ∙ sym (append_assoc ss pre post),
      e3
          ∙ ap (λ x. steps x (pre ++ (vanishes ∷ []))) e
          ∙ sym (steps-append d ss (pre ++ (vanishes ∷ [])))
          ∙ ap (steps d) (sym (append_assoc ss pre (vanishes ∷ []))),
    )

-- `reader_main` over any reads is a sequence of the steps by which the rest of the driver sees it:
-- the bytes of the reads arrive, each read once and in order, and where the loop ends the cable
-- vanishes after a beginning of them.
pub reader_main-Reads :
    (d : Device) (failures : ℕ) (rs : List ReadResult)
    → Reads d (arrived rs) (reader_main d failures rs)
unfolding reader_main
reader_main-Reads d failures [] = unfold steps in refl
reader_main-Reads d failures (r ∷ rs) =
    go_reading-Reads d (arrived_one r) (arrived rs) (reader_round d failures r)
      (λ d' n. reader_main d' n rs) (round-Reads d failures r) (λ d' n. reader_main-Reads d' n rs)
