-- ===== src/Http/Bounds.antt =====
-- app.ts: what reaches the service is within the bounds of the schemas.
use mathlib.Core.Path.{subst}
use mandate_flow.Base.{
  ℕ, ◌≡◌, refl, String, Bool, true, false, Option, none, some, List, [], ◌∷◌, if◌then◌else◌,
}
use mandate_flow.Json.{Json}
use mandate_flow.Http.Bodies.{
  Checked, checked, invalid, ◌>>=◌, create_agent_body, update_agent_body, message_body,
  mandate_param,
}
use mandate_flow.Http.Inputs.{
  Between, CreateBounds, UpdateBounds, Good, create_agent_body-Good, update_agent_body-Good,
  message_body-Good, mandate_param-Good,
}
use mandate_flow.Http.{
  Call, Route, create_agent, update_agent, send_message, revoke_mandate, get_agent, delete_agent,
  start_agent, stop_agent, get_messages, get_runs, get_mandate_summary, new_demo_workflow, get_run,
  get_run_evidence, retry_run, health_info, auth_required, system_info, list_agents, gives, calls,
  plain_route, item_route, agent_route, action_route, route,
}

-- What the schemas promise of the input of a call.
abbrev pub Bounded : (String → Bool) → Call → Type 0
Bounded is_uuid (create_agent input) = CreateBounds input
Bounded is_uuid (update_agent id input) = (is_uuid id ≡ true) × UpdateBounds input
Bounded is_uuid (send_message id content) = (is_uuid id ≡ true) × Between 1 50000 content
Bounded is_uuid (revoke_mandate id) = Between 8 128 id
Bounded is_uuid health_info = Unit
Bounded is_uuid auth_required = Unit
Bounded is_uuid system_info = Unit
Bounded is_uuid list_agents = Unit
Bounded is_uuid (get_agent id) = is_uuid id ≡ true
Bounded is_uuid (delete_agent id) = is_uuid id ≡ true
Bounded is_uuid (start_agent id) = is_uuid id ≡ true
Bounded is_uuid (stop_agent id) = is_uuid id ≡ true
Bounded is_uuid (get_messages id) = is_uuid id ≡ true
Bounded is_uuid (get_runs id) = is_uuid id ≡ true
Bounded is_uuid (get_mandate_summary id) = is_uuid id ≡ true
Bounded is_uuid (new_demo_workflow id) = is_uuid id ≡ true
Bounded is_uuid (get_run id) = is_uuid id ≡ true
Bounded is_uuid (get_run_evidence id) = is_uuid id ≡ true
Bounded is_uuid (retry_run id) = is_uuid id ≡ true

record GoodRoute (is_uuid : String → Bool) (taken : Route) : Type 0 where
  at : (status : ℕ) (call : Call) → taken ≡ some (checked (status, call)) → Bounded is_uuid call

-- A call that has passed its schemas.
record GoodCall (is_uuid : String → Bool) (given : Checked Call) : Type 0 where
  at : (call : Call) → given ≡ checked call → Bounded is_uuid call

module _ {is_uuid : String → Bool} where
  GoodRoute-if :
      (b : Bool) (x y : Route)
      → GoodRoute is_uuid x
      → GoodRoute is_uuid y
      → GoodRoute is_uuid (if b then x else y)
  GoodRoute-if true x y h k = h
  GoodRoute-if false x y h k = k

  GoodRoute-none : GoodRoute is_uuid none
  GoodRoute-none = record { at = λ status call e. cc }

  GoodCall-checked : (call : Call) → Bounded is_uuid call → GoodCall is_uuid (checked call)
  GoodCall-checked call h = record {
    at = λ c e. let same : call ≡ c = cc in subst (Bounded is_uuid) same h;
  }

  GoodRoute-gives :
      (status : ℕ) (c : Checked Call) → GoodCall is_uuid c → GoodRoute is_uuid (gives status c)
  GoodRoute-gives status invalid h = record { at = λ n call e. cc }
  GoodRoute-gives status (checked c) h = record {
    at = λ n call e. let same : c ≡ call = cc in subst (Bounded is_uuid) same (h.at c refl);
  }

  GoodCall-if :
      (b : Bool) (call : Call)
      → (b ≡ true → Bounded is_uuid call)
      → GoodCall is_uuid (if b then checked call else invalid)
  GoodCall-if true call h = GoodCall-checked call (h refl)
  GoodCall-if false call h = record { at = λ c e. cc }

  GoodCall-bind :
      {A : Type 0} (P : A → Type 0) (c : Checked A) (f : A → Call)
      → Good P c
      → ((a : A) → P a → Bounded is_uuid (f a))
      → GoodCall is_uuid (c >>= λ a. checked (f a))
  GoodCall-bind P invalid f h k = record { at = λ c e. cc }
  GoodCall-bind P (checked a) f h k = GoodCall-checked (f a) (k a h)

  -- An identifier is read before a body.
  GoodCall-if_bind :
      {A : Type 0} (P : A → Type 0) (b : Bool) (call : Call) (c : Checked A) (f : A → Call)
      → Good P c
      → (b ≡ true → (a : A) → P a → Bounded is_uuid (f a))
      → GoodCall is_uuid ((if b then checked call else invalid) >>= λ _. c >>= λ a. checked (f a))
  GoodCall-if_bind P true call c f h k = GoodCall-bind P c f h (k refl)
  GoodCall-if_bind P false call c f h k = record { at = λ c e. cc }

  GoodRoute-calls : (call : Call) → Bounded is_uuid call → GoodRoute is_uuid (calls call)
  GoodRoute-calls call h = GoodRoute-gives 200 (checked call) (GoodCall-checked call h)

module _ (is_uuid : String → Bool) where
  plain_route-Good :
      (method name : String) (body : Option Json) → GoodRoute is_uuid (plain_route method name body)
  unfolding plain_route
  plain_route-Good method name body =
      let created = GoodRoute-gives {is_uuid = is_uuid} 201 _ (
        GoodCall-bind CreateBounds (create_agent_body body) create_agent
          (create_agent_body-Good body) (λ input h. h)) in
      GoodRoute-if _ _ _ (GoodRoute-calls health_info tt) (
        GoodRoute-if _ _ _ (GoodRoute-calls auth_required tt) (
          GoodRoute-if _ _ _ (GoodRoute-calls system_info tt) (
            GoodRoute-if _ _ _ (GoodRoute-calls list_agents tt)
              (GoodRoute-if _ _ _ created GoodRoute-none))))

  item_route-Good :
      (method kind id : String) (body : Option Json)
      → GoodRoute is_uuid (item_route is_uuid method kind id body)
  unfolding item_route
  item_route-Good method kind id body =
      let updated = GoodRoute-gives 200 _ (
        GoodCall-if_bind UpdateBounds (is_uuid id) (get_agent id) (update_agent_body body)
          (update_agent id) (update_agent_body-Good body) (λ v input h. (v, h))) in
      let one = λ (call : Call) (h : is_uuid id ≡ true → Bounded is_uuid call).
        GoodRoute-gives 200 _ (GoodCall-if (is_uuid id) call h) in
      GoodRoute-if _ _ _ (one (get_agent id) λ h. h) (
        GoodRoute-if _ _ _ updated (
          GoodRoute-if _ _ _ (one (delete_agent id) λ h. h)
            (GoodRoute-if _ _ _ (one (get_run id) λ h. h) GoodRoute-none)))

  agent_route-Good :
      (method id action : String) (body : Option Json)
      → GoodRoute is_uuid (agent_route is_uuid method id action body)
  unfolding agent_route
  agent_route-Good method id action body =
      let sent = GoodRoute-gives 202 _ (
        GoodCall-if_bind (Between 1 50000) (is_uuid id) (get_agent id) (message_body body)
          (send_message id) (message_body-Good body) (λ v content h. (v, h))) in
      let one = λ (call : Call) (h : is_uuid id ≡ true → Bounded is_uuid call).
        GoodRoute-gives 200 _ (GoodCall-if (is_uuid id) call h) in
      GoodRoute-if _ _ _ (one (start_agent id) λ h. h) (
        GoodRoute-if _ _ _ (one (stop_agent id) λ h. h) (
          GoodRoute-if _ _ _ (one (get_messages id) λ h. h) (
            GoodRoute-if _ _ _ (one (get_runs id) λ h. h) (
              GoodRoute-if _ _ _ (one (get_mandate_summary id) λ h. h) (
                GoodRoute-if _ _ _ sent
                  (GoodRoute-if _ _ _ (one (new_demo_workflow id) λ h. h) GoodRoute-none))))))

  action_route-Good :
      (method kind id action : String) (body : Option Json)
      → GoodRoute is_uuid (action_route is_uuid method kind id action body)
  unfolding action_route
  action_route-Good method kind id action body =
      GoodRoute-if _ _ _ (agent_route-Good method id action body) (
        GoodRoute-if _ _ _
          (GoodRoute-gives 200 _ (GoodCall-if (is_uuid id) (get_run_evidence id) λ h. h))
          (GoodRoute-if _ _ _
            (GoodRoute-gives 202 _ (GoodCall-if (is_uuid id) (retry_run id) λ h. h))
            (GoodRoute-if _ _ _
              (GoodRoute-gives 200 _ (
                GoodCall-bind (Between 8 128) (mandate_param id) revoke_mandate
                  (mandate_param-Good id) (λ mandate_id h. h)))
              GoodRoute-none)))

  route-Good :
      (method : String) (segments : List String) (body : Option Json)
      → GoodRoute is_uuid (route is_uuid method segments body)
  unfolding route
  route-Good method [] body = GoodRoute-none
  route-Good method (name ∷ []) body = plain_route-Good method name body
  route-Good method (kind ∷ id ∷ []) body = item_route-Good method kind id body
  route-Good method (kind ∷ id ∷ action ∷ []) body = action_route-Good method kind id action body
  route-Good method (a ∷ b ∷ c ∷ d ∷ rest) body = GoodRoute-none

  -- Whatever is sent, a call that a route makes has what the schemas promise: a name of 1 to 80 code
  -- units, a description of at most 500 and instructions of at most 10,000, a message of 1 to 50,000,
  -- a mandate's identifier of 8 to 128, and any other identifier a UUID.
  pub route-Bounded :
      (method : String) (segments : List String) (body : Option Json) (status : ℕ) (call : Call)
      → route is_uuid method segments body ≡ some (checked (status, call))
      → Bounded is_uuid call
  route-Bounded method segments body = (route-Good method segments body).at
