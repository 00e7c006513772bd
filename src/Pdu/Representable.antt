-- ===== src/Pdu/Representable.antt =====
-- Which PDUs the C++ type of include/snmpio/Pdu.hpp holds.
use snmpio.Common.{All}
use snmpio.Common.Int32.{IsInt32}
use snmpio.Value.Representable.{IsRepresentableVarbind}
use snmpio.Pdu.{Pdu}

-- What the C++ type of a PDU holds, its OIDs being ones that X.690 can encode.
pub record IsRepresentablePdu (p : Pdu) : Type 0 where
  pub request_id : IsInt32 p.request_id
  pub error_status : IsInt32 p.error_status
  pub error_index : IsInt32 p.error_index
  pub varbinds : All IsRepresentableVarbind p.varbinds
