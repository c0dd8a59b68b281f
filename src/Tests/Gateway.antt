-- ===== src/Tests/Gateway.antt =====
-- A gateway that denies CRM the Payment reference.
use mandate_flow.Base.{
  String, Bool, true, false, ◌&&◌, ◌==◌, Option, none, some, if◌then◌else◌, or_else,
}
use mandate_flow.Model.{other, Result, ok, err}
use mandate_flow.Json.{
  Json, boolean, text, array, object, Items, blank, item, Fields, bare, field, get, as_text,
}
use mandate_flow.Fixture.{McpRequest, HttpReply, Outside}
use mandate_flow.Fixture.Receipts.{is_crm}

-- The file of the fixture.
pub record Store : Type 0 where
  pub file : Option Json

abbrev pub wrapped : Json → HttpReply
wrapped result = record {
  is_success = true;
  status = "200";
  payload = object (field "result" result bare);
}

abbrev pub tool_named : String → Json
tool_named name = object (field "name" (text name) bare)

abbrev pub tools : Items
tools = item (tool_named "support.list_tickets") (
    item (tool_named "payments.list_failures") (
      item (tool_named "cases.lookup_subject") (
        item (tool_named "crm.resolve_customer")
          (item (tool_named "payments.aggregate_failures") blank))))

abbrev pub said : String → Json
said s = object (
    field "content"
      (array (item (object (field "type" (text "text") (field "text" (text s) bare))) blank)) bare)

abbrev pub allowed_result : String → Fields
allowed_result reference = field "ok" (boolean true) (
    field "message" (text "Allowed")
      (field "reference" (object (field "reference" (text reference) bare)) bare))

abbrev pub denied_result : Fields
denied_result = field "ok" (boolean false) (
    field "message" (text "Denied") (
      field "code" (text "FLOW_DENIED") (field "ruleId" (text "NO_PAYMENT_REIDENTIFICATION") bare)))

-- The texts of this gateway: a reference that is handed out, or a denial.
abbrev pub parse : String → Result Json
parse s = if s == "denied" then ok (object denied_result) else ok (object (allowed_result s))

-- A lookup hands out the source of its reference.
abbrev pub handed_out : String → Option Json → String
handed_out name (some (object arguments)) =
    or_else (as_text (get "reference" arguments))
      (if name == "payments.list_failures" then "payment" else "support")
handed_out name _ = "support"

abbrev pub blocks : String → String → Bool
blocks name reference = is_crm name && (reference == "payment")

abbrev pub answer : String → Bool → Result HttpReply
answer reference true = ok (wrapped (said "denied"))
answer reference false = ok (wrapped (said (if reference == "denied" then "" else reference)))

abbrev pub call_answer : Option Json → Option Json → Result HttpReply
call_answer (some (text name)) arguments =
    answer (handed_out name arguments) (blocks name (handed_out name arguments))
call_answer _ arguments = err (other "invalid call")

abbrev pub exchange : Store → McpRequest → Store × Result HttpReply
exchange s request =
    if request.method == "tools/call"
    then (s, call_answer (get "name" request.params) (get "arguments" request.params))
    else (s, ok (wrapped (object (field "tools" (array tools) bare))))

abbrev pub kept_file : Option Json → Result Json
kept_file none = err (other "ENOENT")
kept_file (some value) = ok value

abbrev pub gateway : Outside
gateway = record {
  State = Store;
  exchange = exchange;
  read_json = λ s path. kept_file s.file;
  write_json = λ s path value. (record { file = some value }, ok tt);
  chmod = λ s path. (s, ok tt);
  now = λ s. 0;
  parse = parse;
}
