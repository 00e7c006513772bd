-- ===== src/Value.antt =====
-- include/snmpio/Value.hpp: what a Varbind can carry. Octets are lists of numbers below 256.
pub mod Representable
use snmpio.Common.{ℕ, Bool, true, false, List}
use snmpio.Common.Int32.{ℤ}
use snmpio.Oid.{Oid}

abbrev pub Octets : Type 0
Octets = List ℕ

pub data ValueException : Type 0 where
  no_such_object no_such_instance end_of_mib_view : ValueException

pub data Value : Type 0 where
  null : Value
  integer : ℤ → Value
  octets : Octets → Value
  oid : Oid → Value
  ip_address : Octets → Value
  counter32 gauge32 timeticks : ℕ → Value
  opaque : Octets → Value
  counter64 : ℕ → Value
  exception : ValueException → Value

pub record Varbind : Type 0 where
  pub name : Oid
  pub val : Value

unfoldable pub is_exception : Value → Bool
is_exception (exception e) = true
is_exception _ = false
