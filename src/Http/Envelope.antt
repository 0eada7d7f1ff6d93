-- ===== src/Http/Envelope.antt =====
-- `handleEnvelope` and `handlePaginatedEnvelope` of frontend/src/apis/client.ts. A call that
-- resolves has a response, so the test of a missing one has no case here.
use wazire.Base.{ℕ, suc, Bool, true, false, ◌==◌, is_empty, length, if◌then◌else◌}
use wazire.Base.Text.{Text, text}
use wazire.Base.Number.{whole}
use wazire.Base.Value.{
  Value, undefined, null, bool, num, str, arr, obj, Items, nil, cons, is_truthy, prop, keys,
}
use wazire.Http.Types.{Response, Platform, Result, ok, throw, plain}

abbrev pub or_value : Value → Value → Value
or_value v d = if is_truthy v then v else d

-- `v ?? d`.
abbrev pub or_default : Value → Value → Value
or_default undefined d = d
or_default null d = d
or_default v d = v

abbrev count_items : Items → ℕ
count_items nil = 0
count_items (cons v vs) = suc (count_items vs)

-- `Object.keys(v).length === 0`.
abbrev pub has_no_keys : Value → Bool
has_no_keys (obj fs) = is_empty (keys fs)
has_no_keys (arr nil) = true
has_no_keys (arr (cons _ _)) = false
has_no_keys (str s) = is_empty s
has_no_keys _ = true

-- `v === false`.
abbrev pub is_false : Value → Bool
is_false (bool false) = true
is_false _ = false

abbrev is_undefined : Value → Bool
is_undefined undefined = true
is_undefined _ = false

abbrev pub message_text : Platform → Value → Text
message_text p (str s) = s
message_text p v = p.string_of v

-- `body.error || body.message || 'API Error'`.
unfoldable pub envelope_message : Platform → Value → Text
envelope_message p body = message_text p (
    or_value (prop (text "error") body)
      (or_value (prop (text "message") body) (str (text "API Error"))))

unfoldable pub handle_envelope : Platform → Response → Result Value
unfolding envelope_message
handle_envelope p resp =
    if resp.status == 204
    then ok undefined
    else if is_truthy resp.body
    then (if has_no_keys resp.body
        then ok undefined
        else if is_false (prop (text "success") resp.body)
        then throw (plain (envelope_message p resp.body))
        else if is_undefined (prop (text "data") resp.body)
        then throw (plain (text "API response missing data field"))
        else ok (prop (text "data") resp.body))
    else throw (plain (text "Invalid API response: No data received"))

-- `items.length`.
abbrev length_of : Value → Value
length_of (arr vs) = num (whole (count_items vs))
length_of (str s) = num (whole (length s))
length_of (obj fs) = prop (text "length") (obj fs)
length_of _ = undefined

pub record Paginated : Type 0 where
  pub items : Value
  pub page : Value
  pub per_page : Value
  pub total : Value
  pub pages : Value
  pub has_next : Value
  pub has_prev : Value
  pub next_page : Value
  pub prev_page : Value

unfoldable pub paginated : Value → Value → Paginated
paginated items meta = record {
  items = items;
  page = or_value (prop (text "page") meta) (num (whole 1));
  per_page = or_value (prop (text "per_page") meta) (length_of items);
  total = or_default (prop (text "total") meta) (length_of items);
  pages = or_value (prop (text "pages") meta) (num (whole 1));
  has_next = or_value (prop (text "has_next") meta) (bool false);
  has_prev = or_value (prop (text "has_prev") meta) (bool false);
  next_page = or_value (prop (text "next_page") meta) null;
  prev_page = or_value (prop (text "prev_page") meta) null;
}

unfoldable pub handle_paginated_envelope : Platform → Response → Result Paginated
unfolding envelope_message paginated
handle_paginated_envelope p resp =
    if is_truthy resp.body
    then (if is_false (prop (text "success") resp.body)
        then throw (plain (envelope_message p resp.body))
        else ok (
            paginated (or_default (prop (text "data") resp.body) (arr nil))
              (prop (text "meta") resp.body)))
    else throw (plain (text "Invalid API response: No data received"))
