-- ===== src/Proto/Reply.antt =====
-- `op_reply` of src/op_proto.h. `ntail` is the length of `tail`; a pointer with its length is an
-- `Option` of the bytes that it points to, `none` for NULL.
use openport_j.Base.{ℕ, Bool, true, false, List, [], Option, none, Bytes}

pub data ReplyKind : Type 0 where
  incomplete ok error info pin filter config frame init periodic junk : ReplyKind

pub record Reply : Type 0 where
  pub kind : ReplyKind
  pub error_code : ℕ
  pub has_detail : Bool
  pub detail : ℕ
  pub a : ℕ
  pub b : ℕ
  pub tail : List ℕ
  pub text : Option Bytes
  pub channel : ℕ
  pub status : ℕ
  pub timestamp_us : ℕ
  pub body : Option Bytes

-- `memset(out, 0, sizeof *out)` and a kind.
abbrev pub blank : ReplyKind → Reply
blank k = record {
  kind = k;
  error_code = 0;
  has_detail = false;
  detail = 0;
  a = 0;
  b = 0;
  tail = [];
  text = none;
  channel = 0;
  status = 0;
  timestamp_us = 0;
  body = none;
}

abbrev pub is_init : ReplyKind → Bool
is_init ReplyKind.init = true
is_init _ = false
