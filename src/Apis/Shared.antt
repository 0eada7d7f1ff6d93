-- ===== src/Apis/Shared.antt =====
-- What the API modules share: the error of a guard, the tests of their `catch` clauses, and the
-- parameters of a page.
use wazire.Base.{[], ◌∷◌}
use wazire.Base.Text.{Text, text}
use wazire.Base.Number.{whole}
use wazire.Base.Value.{Value, num, Fields, end, field, prop}
use wazire.Http.Types.{api_error, Rule, rule, Platform}
use wazire.Http.Envelope.{or_value}

-- The tests that the `catch` clauses share, each with the error that is thrown.
abbrev pub on_401 : Text → Rule
on_401 message = rule (text "401" ∷ text "Not authenticated" ∷ []) (api_error message 401)

abbrev pub on_403 : Text → Rule
on_403 message = rule (text "403" ∷ text "Forbidden" ∷ []) (api_error message 403)

abbrev pub on_404 : Text → Rule
on_404 message = rule (text "404" ∷ text "Not Found" ∷ []) (api_error message 404)

abbrev pub on_400 : Text → Rule
on_400 message = rule (text "400" ∷ text "Bad Request" ∷ []) (api_error message 400)

-- `params?.page || 1` and `params?.per_page || config.DEFAULT_PAGE_SIZE`, in front of other fields.
abbrev pub page_params : Platform → Value → Fields → Fields
page_params p params rest =
    field (text "page") (or_value (prop (text "page") params) (num (whole 1))) (
      field (text "per_page")
        (or_value (prop (text "per_page") params) (num (whole p.default_page_size))) rest)

-- `buildPaginationParams`.
unfoldable pub build_pagination_params : Platform → Value → Fields
build_pagination_params p params = page_params p params end

-- `key: params?.key`.
abbrev pub pass_on : Value → Text → Fields → Fields
pass_on params key rest = field key (prop key params) rest
