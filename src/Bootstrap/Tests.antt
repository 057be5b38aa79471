-- ===== src/Bootstrap/Tests.antt =====
-- Bootstrap at a concrete event.
use exec_over_lark.Prelude.{ℕ, Option, none, some, []}
use exec_over_lark.Prelude.Bytes.{Bytes, codes}
use exec_over_lark.Bootstrap.{RawEnvelope, bot_added_event_type, handle_event_json}
use exec_over_lark.Bootstrap.Introduced.{IsIntroduction, AtMostOne, handle_event_json_introduces}

abbrev unmarshal : Bytes → Option RawEnvelope
unmarshal content = some (record {
  type = [];
  event_id = codes "e";
  event_type = bot_added_event_type;
  chat_id = codes "oc_1 ";
  bot_id = [];
  member_id = codes " ou_b";
  open_id = [];
})

abbrev sender : Bytes → Bytes → Option ℕ
sender chat text = none

handle_event_json_introduces_example :
    AtMostOne
      (IsIntroduction unmarshal [] (codes "ou_b"))
      (handle_event_json unmarshal (some sender) [] (codes "ou_b")).1
handle_event_json_introduces_example =
    handle_event_json_introduces unmarshal [] (codes "ou_b") (some sender)
