-- ===== src/Apis/Plain.antt =====
-- The API modules that catch nothing: frontend/src/apis/question.ts and frontend/src/apis/tenant.ts;
-- and the health check of frontend/src/apis/health.ts.
use wazire.Base.{ℕ, Bool, true, false, Option, none, some, ◌==◌, ◌++◌, if◌then◌else◌}
use wazire.Base.Text.{Text, text}
use wazire.Base.Value.{Value, undefined, obj, Fields}
use wazire.Http.Types.{
  Response, Failure, api, axios, plain, other, M, ◌>>=◌, lift, return, catch_with, Platform,
}
use wazire.Http.Client.{client_get, client_post, client_put, client_delete}
use wazire.Http.Envelope.{handle_envelope, handle_paginated_envelope, Paginated}

module _ (p : Platform) where
  -- The call, and the reader of its reply.
  abbrev read_with : M Response → M Value
  read_with call = do resp ← call; lift (handle_envelope p resp)

  abbrev read_page_with : M Response → M Paginated
  read_page_with call = do resp ← call; lift (handle_paginated_envelope p resp)

  unfoldable pub create_question : Fields → M Value
  create_question payload = read_with (client_post p (text "/academic/questions/") (obj payload))

  unfoldable pub upload_questions : Fields → M Value
  upload_questions payload =
      read_with (client_post p (text "/academic/questions/upload") (obj payload))

  unfoldable pub list_questions : Value → M Paginated
  list_questions params = read_page_with (client_get p (text "/academic/questions/") params)

  unfoldable pub get_question : Text → M Value
  get_question id = read_with (client_get p (text "/academic/questions/" ++ id) undefined)

  unfoldable pub update_question : Text → Fields → M Value
  update_question id payload =
      read_with (client_put p (text "/academic/questions/" ++ id) (obj payload))

  unfoldable pub get_exam_questions : Text → M Value
  get_exam_questions id =
      read_with (client_get p (text "/academic/questions/exam/" ++ id) undefined)

  unfoldable pub create_tenant : Fields → M Value
  create_tenant payload = read_with (client_post p (text "/account/tenants/") (obj payload))

  unfoldable pub list_tenants : Value → M Paginated
  list_tenants params = read_page_with (client_get p (text "/account/tenants/") params)

  unfoldable pub get_tenant : Text → M Value
  get_tenant id = read_with (client_get p (text "/account/tenants/" ++ id) undefined)

  unfoldable pub update_tenant : Text → Fields → M Value
  update_tenant id payload = read_with (client_put p (text "/account/tenants/" ++ id) (obj payload))

  unfoldable pub delete_tenant : Text → M Value
  delete_tenant id = read_with (client_delete p (text "/account/tenants/" ++ id))

  unfoldable pub get_tenant_users : Text → Value → M Paginated
  get_tenant_users id params =
      read_page_with (client_get p (text "/account/tenants/" ++ id ++ text "/users") params)

  unfoldable pub get_tenant_stats : Text → M Value
  get_tenant_stats id =
      read_with (client_get p (text "/account/tenants/" ++ id ++ text "/stats") undefined)

-- What the health check gives: the data, or the error with its status.
pub data Health : Type 0 where
  healthy : Value → Health
  unhealthy : Text → Option ℕ → Health

abbrev status_of : Option Response → Option ℕ
status_of none = none
status_of (some resp) = if resp.status == 0 then none else some resp.status

abbrev unhealthy_by : Failure → Health
unhealthy_by (api e) = unhealthy e.message none
unhealthy_by (axios e) = unhealthy e.message (status_of e.response)
unhealthy_by (plain message) = unhealthy message none
unhealthy_by (other v) = unhealthy (text "Unknown error") none

-- The base of the address of this one request is left out.
unfoldable pub health_check : Platform → M Health
unfolding catch_with
health_check p =
    catch_with
      (do response ← client_get p (text "/health") undefined; return (healthy response.body))
      (λ f. return (unhealthy_by f))

abbrev is_healthy : Health → Bool
is_healthy (healthy v) = true
is_healthy (unhealthy message status) = false

unfoldable pub test_api_connection : Platform → M Bool
unfolding health_check
test_api_connection p = do result ← health_check p; return (is_healthy result)
