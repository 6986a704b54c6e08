-- ===== src/Transport/Usb/Freed.antt =====
-- What `rx_stop` of src/op_usb.c frees.
use openport_j.Base.{ℕ, ◌≤◌, ◌≡◌, true, List, [], ◌∷◌}
use openport_j.Transport.Usb.{Usb}
use openport_j.Transport.Usb.Receive.{Event, events}
use openport_j.Transport.Usb.Posted.{AllCome}
use openport_j.Transport.Usb.Completions.{Posted}

-- While a close is under way: no read is posted again.
abbrev Closing : ℕ → Usb → Type 0
Closing n u = Posted u × (u.stopping ≡ true) × (u.rx_flying ≤ n)

-- What completes up to each wake-up, and up to the end of the wait, can come.
abbrev pub WaitComes : Usb → List (List Event) → List Event → Type 0
WaitComes u [] last = AllCome u last
WaitComes u (w ∷ ws) last = AllCome u w × WaitComes (events u w) ws last
