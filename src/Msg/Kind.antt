-- ===== src/Msg/Kind.antt =====
-- src/msg/type.h.
use atolla.Prelude.{ℕ}

-- enum MsgType
pub data MsgType : Type 0 where
  borrow : MsgType
  lent : MsgType
  enqueue : MsgType
  fail : MsgType

-- The number of the enumerator, which is the type byte of a message.
abbrev pub type_byte : MsgType → ℕ
type_byte MsgType.borrow = 0
type_byte MsgType.lent = 1
type_byte MsgType.enqueue = 2
type_byte MsgType.fail = 255
