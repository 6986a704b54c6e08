-- ===== src/Transport/Terminal.antt =====
-- `op_serial_open` and `ser_close` of src/op_serial.c.
use openport_j.Base.{
  ℕ, ◌≡◌, refl, sym, inl, inr, Bool-cases, Bool, true, false, Option, none, some, if◌then◌else◌,
}
use openport_j.Codes.{OpStatus, is_fine}
use openport_j.Transport.Serial.{Errno, from_errno}

-- CSIZE
pub data CharSize : Type 0 where
  cs5 cs6 cs7 cs8 : CharSize

-- `struct termios`, the flags that the code names and the two control characters.
pub record Termios : Type 0 where
  pub ignbrk : Bool
  pub brkint : Bool
  pub parmrk : Bool
  pub istrip : Bool
  pub inlcr : Bool
  pub igncr : Bool
  pub icrnl : Bool
  pub ixon : Bool
  pub ixoff : Bool
  pub ixany : Bool
  pub opost : Bool
  pub echo : Bool
  pub echonl : Bool
  pub icanon : Bool
  pub isig : Bool
  pub iexten : Bool
  pub parenb : Bool
  pub cstopb : Bool
  pub crtscts : Bool
  pub clocal : Bool
  pub cread : Bool
  pub csize : CharSize
  pub vmin : ℕ
  pub vtime : ℕ

-- No input or output is translated, nothing is echoed, a read never waits.
unfoldable pub make_raw : Termios → Termios
make_raw tio = record tio {
  ignbrk = false;
  brkint = false;
  parmrk = false;
  istrip = false;
  inlcr = false;
  igncr = false;
  icrnl = false;
  ixon = false;
  ixoff = false;
  ixany = false;
  opost = false;
  echo = false;
  echonl = false;
  icanon = false;
  isig = false;
  iexten = false;
  parenb = false;
  cstopb = false;
  crtscts = false;
  clocal = true;
  cread = true;
  csize = cs8;
  vmin = 0;
  vtime = 0;
}

-- What the system answers: the error of open(2), the terminal's settings where tcgetattr has them,
-- whether tcsetattr takes new ones, and whether there is memory.
pub record SerialAnswers : Type 0 where
  pub failed : Option Errno
  pub settings : Option Termios
  pub takes : Bool
  pub room : Bool

-- The status, whether the descriptor is open, and the terminal's settings.
pub record SerialOpened : Type 0 where
  pub status : OpStatus
  pub is_open : Bool
  pub settings : Option Termios

abbrev pub set_raw : Bool → Option Termios → Option Termios
set_raw takes none = none
set_raw takes (some tio) = if takes then some (make_raw tio) else some tio

abbrev pub open_serial : SerialAnswers → Option Errno → SerialOpened
open_serial a (some failed) = record {
  status = from_errno failed;
  is_open = false;
  settings = a.settings;
}
open_serial a none = record {
  status = if a.room then OpStatus.fine else OpStatus.io;
  is_open = a.room;
  settings = set_raw a.takes a.settings;
}

unfoldable pub op_serial_open : SerialAnswers → SerialOpened
op_serial_open a = open_serial a a.failed

-- `ser_close` closes the descriptor if it is open; the terminal keeps its settings.
unfoldable pub ser_close : SerialOpened → SerialOpened
ser_close o = record o { is_open = false }

from_errno-is_fine : (e : Errno) → is_fine (from_errno e) ≡ false
unfolding from_errno
from_errno-is_fine Errno.enoent = refl
from_errno-is_fine Errno.eacces = refl
from_errno-is_fine Errno.ebusy = refl
from_errno-is_fine Errno.eagain = refl
from_errno-is_fine Errno.einval = refl
from_errno-is_fine Errno.eintr = refl
from_errno-is_fine Errno.other = refl

open_serial-is_open :
    (a : SerialAnswers) (e : Option Errno)
    → (open_serial a e).is_open ≡ is_fine (open_serial a e).status
open_serial-is_open a (some e) = sym (from_errno-is_fine e)
open_serial-is_open a none = elim (Bool-cases a.room) [ inl h ↦ rw h refl | inr h ↦ rw h refl ]

-- The descriptor is open exactly where the status is OP_OK: no failure leaks it.
op_serial_open-is_open :
    (a : SerialAnswers) → (op_serial_open a).is_open ≡ is_fine (op_serial_open a).status
unfolding op_serial_open
op_serial_open-is_open a = open_serial-is_open a a.failed

-- A terminal that takes the settings is raw whatever it was before.
raw_again : (tio : Termios) → make_raw (make_raw tio) ≡ make_raw tio
unfolding make_raw
raw_again tio = refl
