-- ===== src/Transport/Usb/Completions.antt =====
-- Every completion keeps the posted reads of src/op_usb.c in order, and so does every run of them.
use openport_j.Base.{
  ℕ, ◌+◌, ◌<◌, ◌≡◌, refl, sym, ap, ◌∙◌, true, false, List, [], ◌∷◌, Bytes, arith, if_cases, get_or,
}
use openport_j.Codes.{OpStatus, is_fine}
use openport_j.Transport.Usb.{Usb, LibusbCode, usb_rx_transfers}
use openport_j.Transport.Usb.Slots.{flying_in, get_or-set}
use openport_j.Transport.Usb.Receive.{
  rx_fail, Completion, completed, cancelled, gone, failed, Event, done, polled, rx_landed, put_some,
  rx_completed, rx_done, rx_polled, rx_event, events,
}
use openport_j.Transport.Usb.Posted.{
  Counted, AllPosted, Comes, AllCome, landed-Counted, put_some-Counted, put_some-SameReads,
  resubmit-Counted, rx_fail-Counted, rx_fail_lem,
}

-- What holds between completions.
abbrev pub Posted : Usb → Type 0
Posted u = Counted u × AllPosted u

in_range : (u : Usb) (i : ℕ) → Counted u → get_or u.flying i false ≡ true → i < usb_rx_transfers
in_range u i c on = omega (arith, flying_in u.flying i on, c.slots)

landed_off :
    (u : Usb) (i : ℕ)
    → get_or u.flying i false ≡ true
    → get_or (rx_landed u i).flying i false ≡ false
unfolding rx_landed
landed_off u i on = ground (arith, get_or-set u.flying i i false (flying_in u.flying i on))

-- One read less is flying.
landed_count :
    (u : Usb) (i : ℕ)
    → Posted u
    → get_or u.flying i false ≡ true
    → is_fine u.rx_error ≡ true
    → u.stopping ≡ false
    → (rx_landed u i).rx_flying + 1 ≡ usb_rx_transfers
unfolding rx_landed
landed_count u i (c, all) on fine running = omega (arith, all fine running)

completed-Posted :
    (u : Usb) (i : ℕ) (src : Bytes) (r : LibusbCode)
    → Posted u
    → get_or u.flying i false ≡ true
    → Posted (rx_completed (rx_landed u i) i src r)
unfolding rx_completed rx_landed
completed-Posted u i src r p on =
    if_cases Posted v.stopping _ _ (λ stops. (counted, λ _ running. cc))
      (λ runs.
        resubmit-Counted v i r counted (in_range u i p.0 on)
          (ap (λ bs. get_or bs i false) same.0 ∙ landed_off u i on)
          (λ fine running.
            ap (λ n. n + 1) same.1
            ∙ landed_count u i p on (ap is_fine (sym same.2) ∙ fine) (sym same.3 ∙ running)))
  where
    v : Usb
    v = put_some (rx_landed u i) src

    counted : Counted v
    counted = put_some-Counted (rx_landed u i) src (landed-Counted u i p.0 on)

    same :
        (v.flying ≡ (rx_landed u i).flying)
        × (v.rx_flying ≡ (rx_landed u i).rx_flying)
        × (v.rx_error ≡ (rx_landed u i).rx_error)
        × (v.stopping ≡ (rx_landed u i).stopping)
    same = put_some-SameReads (rx_landed u i) src

failed-Posted :
    (u : Usb) (i : ℕ) (st : OpStatus)
    → Counted u
    → get_or u.flying i false ≡ true
    → is_fine st ≡ false
    → Posted (rx_fail (rx_landed u i) st)
failed-Posted u i st c on bad = (
  rx_fail-Counted (rx_landed u i) st (landed-Counted u i c on),
  λ fine _. absurd (ground (arith, rx_fail_lem (rx_landed u i) st bad)),
)

rx_done-Posted :
    (u : Usb) (i : ℕ) (c : Completion) (r : LibusbCode)
    → Posted u
    → get_or u.flying i false ≡ true
    → (c ≡ cancelled → u.stopping ≡ true)
    → Posted (rx_done u i c r)
unfolding rx_done
rx_done-Posted u i (completed src) r p on stops = completed-Posted u i src r p on
rx_done-Posted u i cancelled r p on stops = (
  landed-Counted u i p.0 on,
  unfold rx_landed in λ _ running. absurd (ground (arith, stops refl)),
)
rx_done-Posted u i gone r p on stops = failed-Posted u i OpStatus.no_device p.0 on refl
rx_done-Posted u i failed r p on stops = failed-Posted u i OpStatus.io p.0 on refl

pub rx_event-Posted : (u : Usb) (e : Event) → Posted u → Comes u e → Posted (rx_event u e)
rx_event-Posted u (done i c r) p (on, stops) = rx_done-Posted u i c r p on stops
rx_event-Posted u polled (c, all) comes =
    unfold rx_polled in
    (
      record {
        has_ring = record { head_in = c.has_ring.head_in; used_le = c.has_ring.used_le };
        slots = c.slots;
        counted = c.counted;
      },
      all,
    )

pub events-Posted : (u : Usb) (es : List Event) → Posted u → AllCome u es → Posted (events u es)
events-Posted u [] p comes = p
events-Posted u (e ∷ es) p (come, rest) =
    events-Posted (rx_event u e) es (rx_event-Posted u e p come) rest
