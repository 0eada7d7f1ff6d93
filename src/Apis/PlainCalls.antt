-- ===== src/Apis/PlainCalls.antt =====
-- The functions of frontend/src/apis/question.ts and frontend/src/apis/tenant.ts, as one type of
-- calls.
use wazire.Base.{◌++◌, refl}
use wazire.Base.Text.{Text, text}
use wazire.Base.Value.{Value, undefined, obj, Fields}
use wazire.Http.Types.{Platform, World}
use wazire.Http.Client.{client_get, client_post, client_put, client_delete}
use wazire.Apis.Plain
use wazire.Apis.PlainConduct.{SendsOnce, plain-SendsOnce}

pub data PlainCall : Type 0 where
  create_question : Fields → PlainCall
  upload_questions : Fields → PlainCall
  list_questions : Value → PlainCall
  get_question : Text → PlainCall
  update_question : Text → Fields → PlainCall
  get_exam_questions : Text → PlainCall
  create_tenant : Fields → PlainCall
  list_tenants : Value → PlainCall
  get_tenant : Text → PlainCall
  update_tenant : Text → Fields → PlainCall
  delete_tenant : Text → PlainCall
  get_tenant_users : Text → Value → PlainCall
  get_tenant_stats : Text → PlainCall

-- What a call does from a state of the browser, beside its request.
abbrev pub PlainIsProper : Platform → World → PlainCall → Type 0
PlainIsProper p w (PlainCall.create_question payload) =
    SendsOnce (client_post p (text "/academic/questions/") (obj payload) w) w
      (Plain.create_question p payload w)
PlainIsProper p w (PlainCall.upload_questions payload) =
    SendsOnce (client_post p (text "/academic/questions/upload") (obj payload) w) w
      (Plain.upload_questions p payload w)
PlainIsProper p w (PlainCall.list_questions params) =
    SendsOnce (client_get p (text "/academic/questions/") params w) w
      (Plain.list_questions p params w)
PlainIsProper p w (PlainCall.get_question id) =
    SendsOnce (client_get p (text "/academic/questions/" ++ id) undefined w) w
      (Plain.get_question p id w)
PlainIsProper p w (PlainCall.update_question id payload) =
    SendsOnce (client_put p (text "/academic/questions/" ++ id) (obj payload) w) w
      (Plain.update_question p id payload w)
PlainIsProper p w (PlainCall.get_exam_questions id) =
    SendsOnce (client_get p (text "/academic/questions/exam/" ++ id) undefined w) w
      (Plain.get_exam_questions p id w)
PlainIsProper p w (PlainCall.create_tenant payload) =
    SendsOnce (client_post p (text "/account/tenants/") (obj payload) w) w
      (Plain.create_tenant p payload w)
PlainIsProper p w (PlainCall.list_tenants params) =
    SendsOnce (client_get p (text "/account/tenants/") params w) w (Plain.list_tenants p params w)
PlainIsProper p w (PlainCall.get_tenant id) =
    SendsOnce (client_get p (text "/account/tenants/" ++ id) undefined w) w
      (Plain.get_tenant p id w)
PlainIsProper p w (PlainCall.update_tenant id payload) =
    SendsOnce (client_put p (text "/account/tenants/" ++ id) (obj payload) w) w
      (Plain.update_tenant p id payload w)
PlainIsProper p w (PlainCall.delete_tenant id) =
    SendsOnce (client_delete p (text "/account/tenants/" ++ id) w) w (Plain.delete_tenant p id w)
PlainIsProper p w (PlainCall.get_tenant_users id params) =
    SendsOnce (client_get p (text "/account/tenants/" ++ id ++ text "/users") params w) w
      (Plain.get_tenant_users p id params w)
PlainIsProper p w (PlainCall.get_tenant_stats id) =
    SendsOnce (client_get p (text "/account/tenants/" ++ id ++ text "/stats") undefined w) w
      (Plain.get_tenant_stats p id w)

pub plain_calls_are_proper : (p : Platform) (w : World) (c : PlainCall) → PlainIsProper p w c
unfolding Plain.create_question Plain.upload_questions Plain.list_questions Plain.get_question
    Plain.update_question Plain.get_exam_questions Plain.create_tenant Plain.list_tenants
    Plain.get_tenant Plain.update_tenant Plain.delete_tenant Plain.get_tenant_users
    Plain.get_tenant_stats
plain_calls_are_proper p w (PlainCall.create_question payload) =
    plain-SendsOnce w _ (λ r v. refl) p _
plain_calls_are_proper p w (PlainCall.upload_questions payload) =
    plain-SendsOnce w _ (λ r v. refl) p _
plain_calls_are_proper p w (PlainCall.list_questions params) = plain-SendsOnce w _ (λ r v. refl) p _
plain_calls_are_proper p w (PlainCall.get_question id) = plain-SendsOnce w _ (λ r v. refl) p _
plain_calls_are_proper p w (PlainCall.update_question id payload) =
    plain-SendsOnce w _ (λ r v. refl) p _
plain_calls_are_proper p w (PlainCall.get_exam_questions id) = plain-SendsOnce w _ (λ r v. refl) p _
plain_calls_are_proper p w (PlainCall.create_tenant payload) = plain-SendsOnce w _ (λ r v. refl) p _
plain_calls_are_proper p w (PlainCall.list_tenants params) = plain-SendsOnce w _ (λ r v. refl) p _
plain_calls_are_proper p w (PlainCall.get_tenant id) = plain-SendsOnce w _ (λ r v. refl) p _
plain_calls_are_proper p w (PlainCall.update_tenant id payload) =
    plain-SendsOnce w _ (λ r v. refl) p _
plain_calls_are_proper p w (PlainCall.delete_tenant id) = plain-SendsOnce w _ (λ r v. refl) p _
plain_calls_are_proper p w (PlainCall.get_tenant_users id params) =
    plain-SendsOnce w _ (λ r v. refl) p _
plain_calls_are_proper p w (PlainCall.get_tenant_stats id) = plain-SendsOnce w _ (λ r v. refl) p _
