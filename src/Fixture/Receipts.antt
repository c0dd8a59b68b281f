-- ===== src/Fixture/Receipts.antt =====
-- What is recorded of the tool calls of the fixture.
use mathlib.Core.Path.{subst}
use mathlib.Core.Option.{some-injective}
use mandate_flow.Base.{
  ℕ, zero, suc, pos, ◌≡◌, refl, String, Bool, true, false, ◌==◌, some, List, [], ◌∷◌, push,
  get_elem?, if◌then◌else◌,
}
use mandate_flow.Model.{PolicyReceipt, ok}
use mandate_flow.Json.{Fields, Json}
use mandate_flow.Proof.{allowed_receipt, denied_crm_receipt}
use mandate_flow.Fixture.{McpRequest, Outside}
use mandate_flow.Fixture.Calls.{is_ok_result, is_payment_denial}
use mandate_flow.Fixture.Steps.{structured, reply_result, tool_params}

-- An allowed call of a tool, of CRM from a counter on, and a CRM call that was denied at a counter.
pub data Entry : Type 0 where
  passed : String → Entry
  resolved : ℕ → Entry
  denied : ℕ → Entry

abbrev pub Fits : Entry → PolicyReceipt → Type 0
Fits (passed name) r = allowed_receipt name r ≡ true
Fits (resolved n) r =
    (allowed_receipt "crm.resolve_customer" r ≡ true)
    × ((r.counter_before ≡ pos n) × (r.counter_after ≡ pos (suc n)))
Fits (denied n) r =
    (denied_crm_receipt r ≡ true) × ((r.counter_before ≡ pos n) × (r.counter_after ≡ pos n))

abbrev pub Records : List Entry → List PolicyReceipt → Type 0
Records [] [] = Unit
Records [] (r ∷ rs) = ⊥
Records (e ∷ es) [] = ⊥
Records (e ∷ es) (r ∷ rs) = Fits e r × Records es rs

pub Records-push :
    (es : List Entry) (rs : List PolicyReceipt) (e : Entry) (r : PolicyReceipt)
    → Records es rs
    → Fits e r
    → Records (push es e) (push rs r)
Records-push [] [] e r h fits = (fits, tt)
Records-push [] (q ∷ rs) e r h fits = elim h [ ]
Records-push (d ∷ es) [] e r h fits = elim h [ ]
Records-push (d ∷ es) (q ∷ rs) e r h fits = (h.0, Records-push es rs e r h.1 fits)

pub Records-get :
    (es : List Entry) (rs : List PolicyReceipt) (i : ℕ) (e : Entry)
    → Records es rs
    → get_elem? es i ≡ some e
    → (r : PolicyReceipt) × ((get_elem? rs i ≡ some r) × Fits e r)
Records-get [] rs i e h at = cc
Records-get (d ∷ es) [] i e h at = elim h [ ]
Records-get (d ∷ es) (r ∷ rs) zero e h at =
    (r, (refl, subst (λ f. Fits f r) (some-injective d e at) h.0))
Records-get (d ∷ es) (r ∷ rs) (suc i) e h at = Records-get es rs i e h.1 at

pub Records-at :
    (es : List Entry) (rs : List PolicyReceipt) (i : ℕ) (r : PolicyReceipt)
    → Records es rs
    → get_elem? rs i ≡ some r
    → (e : Entry) × ((get_elem? es i ≡ some e) × Fits e r)
Records-at es [] i r h at = cc
Records-at [] (q ∷ rs) i r h at = elim h [ ]
Records-at (d ∷ es) (q ∷ rs) zero r h at =
    (d, (refl, subst (λ x. Fits d x) (some-injective q r at) h.0))
Records-at (d ∷ es) (q ∷ rs) (suc i) r h at = Records-at es rs i r h.1 at

abbrev pub is_crm : String → Bool
is_crm name = name == "crm.resolve_customer"

abbrev pub entry_of : String → ℕ → Entry
entry_of name n = if is_crm name then resolved n else passed name

abbrev pub counted : String → ℕ → ℕ
counted name n = if is_crm name then suc n else n

abbrev pub tool_request : String → ℕ → String → Fields → McpRequest
tool_request capability id name arguments = record {
  capability = capability;
  id = id;
  method = "tools/call";
  params = tool_params name arguments;
}

-- Receipts of the tool calls, and a CRM counter: only a tool call touches them; one that is answered as
-- allowed adds its receipt, and to CRM counts up; a CRM call that is answered as denied by the Payment
-- rule adds its receipt and leaves the counter. Fixture.Transcript makes them for any gateway.
pub record Recording (O : Outside) : Type 0 where
  pub receipts : O.State → List PolicyReceipt
  pub crm_counter : O.State → ℕ
  pub quiet :
      (s : O.State) (request : McpRequest)
      → (request.method == "tools/call") ≡ false
      → (receipts (O.exchange s request).0 ≡ receipts s)
        × (crm_counter (O.exchange s request).0 ≡ crm_counter s)
  pub writes :
      (s : O.State) (path : String) (value : Json)
      → (receipts (O.write_json s path value).0 ≡ receipts s)
        × (crm_counter (O.write_json s path value).0 ≡ crm_counter s)
  pub changes_mode :
      (s : O.State) (path : String)
      → (receipts (O.chmod s path).0 ≡ receipts s)
        × (crm_counter (O.chmod s path).0 ≡ crm_counter s)
  pub allows :
      (s : O.State) (capability : String) (id : ℕ) (name : String) (arguments result : Fields)
      → structured O name
          (reply_result O (O.exchange s (tool_request capability id name arguments)).1)
        ≡ ok result
      → is_ok_result result ≡ true
      → (r : PolicyReceipt) × (receipts (O.exchange s (tool_request capability id name arguments)).0
          ≡ push (receipts s) r)
        × Fits (entry_of name (crm_counter s)) r
        × (crm_counter (O.exchange s (tool_request capability id name arguments)).0
            ≡ counted name (crm_counter s))
  pub denies :
      (s : O.State) (capability : String) (id : ℕ) (name : String) (arguments result : Fields)
      → structured O name
          (reply_result O (O.exchange s (tool_request capability id name arguments)).1)
        ≡ ok result
      → is_payment_denial result ≡ true
      → is_crm name ≡ true
      → (r : PolicyReceipt) × (receipts (O.exchange s (tool_request capability id name arguments)).0
          ≡ push (receipts s) r)
        × Fits (denied (crm_counter s)) r
        × (crm_counter (O.exchange s (tool_request capability id name arguments)).0 ≡ crm_counter s)
