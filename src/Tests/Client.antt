-- ===== src/Tests/Client.antt =====
-- A client that asks over SNMPv2c, and the answer that arrives.
use snmpio.Common.{
  ℕ, Bool, true, false, Option, none, some, List, [], ◌∷◌, ◌≡◌, ◌⊎◌, inl, inr, refl, sym, arith,
  Any, length, Bool-cases, if◌then◌else◌, ◌==◌,
}
use snmpio.Common.Int32.{pos, same_int, same_int_iff}
use snmpio.Value.{Octets}
use snmpio.Common.Int32.{to_u32, from_u32}
use snmpio.Common.Bytes.{bytes_be, fold_octets}
use snmpio.Common.Map.{same_octets}
use snmpio.Ber.Writer
use snmpio.Ber.Reader
use snmpio.Ber.Reader.Fields
use snmpio.Pdu.{
  PduType, encode_v2c_message, encode_pdu, pdu_tag, message_version, decode_v2c_message, v2c_body,
  v2c_fields, v2c_pdu, finished, decode_pdu, pdu_at, pdu_of_tag, is_pdu_tag, pdu_type_of, pdu_body,
  all_present,
}
use snmpio.Client.{modify, to_result}
use snmpio.Client.Ids.{next_id, succ_id}
use snmpio.Client.Report.{is_response}
use snmpio.Usm.{SecurityLevel, AuthProtocol}
use snmpio.V3Message.{V3Message, no_scoped}
use snmpio.Client.{Impl, Pending, Endpoint, Target, new_pending, no_pdu}
use snmpio.Client.Strand.{
  Run, Await, no_signal, received, wait, wait_for, steps, step, make_shared, emplace_pending,
  erase_pending,
}
use snmpio.Client.Deliver.{receive, accept_v3, deliver_v2c, at_pending, accept_v2c}
use snmpio.Client.Deliver.Reply.{IsDropped, V3Reply, IsHeeded, accept_v3-cases}
use snmpio.Client.Deliver.Receive.{IsSound, receive-IsSound}
use snmpio.Client.Deliver.Frame.{IsFramed, receive-IsFramed}
use snmpio.Client.Exchange.{
  transact, do_request_v2c, request_v2c, completed, exchange, attempt_loop, attempts, send,
  socket_for, verdict, is_aborted, is_cancelled, soft_cancelled, answered_at, drop_reason_at,
  response_at,
}
use snmpio.Client.Exchange.Justified.{IsReply, IsGiven, do_request_v2c-HasAnswer}
use snmpio.Client.{Failure}
use snmpio.Client.RequestV3.{community}
use snmpio.Client.Walk.{do_walk}
use snmpio.Client.Walk.V2c.{over_requests, do_walk_v2c-some}
use snmpio.Tests.Security.{toy, key}
use snmpio.Tests.Codec.{public}
use snmpio.Tests.Clocks.{idle, newer}

-- The Response with number 5 and no varbinds.
abbrev answer : Octets
answer =
    48 ∷ 21 ∷ 2 ∷ 1 ∷ 1 ∷ 4 ∷ 3 ∷ b'p' ∷ b'u' ∷ b'b' ∷ 162 ∷ 11 ∷ 2 ∷ 1 ∷ 5 ∷ 2 ∷ 1 ∷ 0 ∷ 2 ∷ 1 ∷ 0
    ∷ 48 ∷ 0 ∷ []

-- The first attempt is lost, the second is answered from elsewhere and then by the Target.
abbrev awaits : List Await
awaits =
    record { failure = none; events = [] }
    ∷ record { failure = none; events = [] }
    ∷ record { failure = none; events = [] }
    ∷ record {
      failure = none;
      events = received answer (omega arith) 8 ∷ received answer (omega arith) 9 ∷ [];
    }
    ∷ []

abbrev run : Run
run = record { impl = idle; now = 0; cancelled = no_signal; awaits = awaits; heard = []; sent = [] }

abbrev pub target : Target
target = record { endpoint = 9; timeout = 2000; retries = pos 1 }

abbrev pub v4_only : Endpoint → Bool
v4_only at = false

abbrev pub opens : Bool → ℕ → Option ℕ
opens v6 now = none

pub idle-IsSound : IsSound toy [] idle
idle-IsSound = record {
  table = λ id ref t. absurd (cc);
  derived = λ k key e. absurd (cc);
  octets = tt;
  discovered = λ ref d e. absurd (cc);
  fresh = λ ref l. refl;
  justified = λ ref p l a. absurd (cc);
}

do_request_v2c-HasAnswer_example :
    IsSound toy
      (do_request_v2c toy v4_only opens target public no_pdu run).0.heard
      (do_request_v2c toy v4_only opens target public no_pdu run).0.impl
    × (IsReply (do_request_v2c toy v4_only opens target public no_pdu run).1.0
        → Any
            (IsGiven public 9 (pos 5) (do_request_v2c toy v4_only opens target public no_pdu run).1)
            (do_request_v2c toy v4_only opens target public no_pdu run).0.heard)
do_request_v2c-HasAnswer_example =
    do_request_v2c-HasAnswer toy v4_only opens target public no_pdu run idle-IsSound

-- Request 5 of an operation that waits.
abbrev asked : Pending
asked = record new_pending { from = 9; community = public; request_id = pos 5 }

abbrev waiting : Impl
waiting = record idle {
  pending = λ id. if same_int id (pos 5) then some 0 else none;
  requests = λ ref. if ref == 0 then some asked else none;
  next_ref = 1;
}

waiting-IsSound : IsSound toy [] waiting
waiting-IsSound = record {
  table = λ id ref t. elim (Bool-cases (same_int id (pos 5))) [
    | inl c ↦ (asked, ground (arith, t, c), sym ((same_int_iff id (pos 5)).0 c))
    | inr c ↦ absurd (ground (arith, t, c))
  ];
  derived = λ k key e. absurd (cc);
  octets = tt;
  discovered = λ ref d e. absurd (cc);
  fresh = λ ref l. ground arith;
  justified = λ ref p l a. absurd (ground (arith, l, a));
}

receive-IsSound_example : IsSound toy ((answer, 9) ∷ []) (receive toy 0 answer 9 waiting)
receive-IsSound_example = receive-IsSound toy 0 answer 9 [] waiting (omega arith) waiting-IsSound

receive-IsFramed_example : IsFramed waiting (receive toy 0 answer 9 waiting)
receive-IsFramed_example = receive-IsFramed toy 0 answer 9 waiting

abbrev waiting_v3 : Pending
waiting_v3 = record new_pending {
  from = 9;
  v3 = true;
  auth_required = true;
  auth_protocol = AuthProtocol.sha1;
  auth_key = key;
  engine_id = newer.engine_id;
  request_id = pos 5;
}

abbrev signed : V3Message
signed = record {
  header = record {
    msg_id = pos 5;
    max_size = pos 65507;
    level = SecurityLevel.auth_no_priv;
    reportable = false;
    security_model = pos 3;
  };
  security = record newer { auth_params = 9 ∷ 9 ∷ 9 ∷ 9 ∷ 9 ∷ 9 ∷ 9 ∷ 9 ∷ 9 ∷ 9 ∷ 9 ∷ 9 ∷ [] };
  scoped = record no_scoped { pdu = record no_pdu { type = PduType.response; request_id = pos 5 } };
  encrypted_pdu = [];
  auth_params_offset = 2;
}

accept_v3-cases_example :
    IsDropped waiting_v3 (accept_v3 toy 9 answer true signed waiting_v3)
    ⊎ (V3Reply toy 9 answer signed (accept_v3 toy 9 answer true signed waiting_v3)
        × IsHeeded true (accept_v3 toy 9 answer true signed waiting_v3))
accept_v3-cases_example = accept_v3-cases toy 9 answer true signed waiting_v3

-- The lost attempt is made again, and the answer from elsewhere does not count.
answered :
    let out = do_request_v2c toy v4_only opens target public no_pdu run in
    (out.1.0 ≡ none) × (length out.0.sent ≡ 2) × (length out.0.heard ≡ 2)
unfolding do_request_v2c request_v2c completed transact exchange attempt_loop attempts send
    socket_for verdict is_aborted is_cancelled soft_cancelled answered_at drop_reason_at response_at
    to_result wait wait_for steps step make_shared emplace_pending erase_pending next_id succ_id
    receive message_version deliver_v2c at_pending accept_v2c modify same_octets is_response
    encode_v2c_message encode_pdu pdu_tag Writer.new Writer.in_scope Writer.begin_constructed
    Writer.fail Writer.close_scope Writer.widen Writer.patch_length Writer.length_octets
    Writer.significant_loop Writer.put_length Writer.integer Writer.strip_sign Writer.octet_string
    Writer.varbind_list bytes_be to_u32 decode_v2c_message v2c_body v2c_fields v2c_pdu finished
    decode_pdu pdu_at pdu_of_tag is_pdu_tag pdu_type_of pdu_body all_present Reader.over
    Reader.enter Reader.enter_header Reader.leave Reader.finish Reader.fail Reader.peek_tag
    Reader.at_end Reader.remaining Reader.byte_at Reader.advance Reader.read_header
    Reader.header_length Reader.long_length Reader.checked_header Reader.read_length
    Reader.primitive_content Reader.content_at Reader.content_of_tag Reader.take_content
    Fields.integer Fields.integer_content Reader.in_scope Reader.unless_failed Fields.varbind_list
    Fields.varbinds_loop fold_octets from_u32
answered = (refl, refl, refl)

do_walk_v2c-some_example :
    (r' : Run) × (failure : Option Failure) × (do_walk
        (over_requests toy v4_only opens (λ r. 7) target (community public))
        (λ batch r. (r, true))
        (1 ∷ 3 ∷ [])
        (pos 10)
        run
      ≡ some (r', failure))
do_walk_v2c-some_example =
    do_walk_v2c-some toy v4_only opens (λ r. 7) target public (λ batch r. (r, true)) (1 ∷ 3 ∷ [])
      (pos 10) run (λ batch r w. w) (omega arith) idle-IsSound
