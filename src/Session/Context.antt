-- ===== src/Session/Context.antt =====
-- frontend/src/contexts/AuthContext.tsx: the user that the page knows, beside localStorage. Where
-- localStorage cannot be used, its methods throw.
use mathlib.Core.List.{reverse}
use wazire.Base.{
  ℕ, Bool, true, false, ◌&&◌, Option, none, some, List, [], ◌∷◌, any, is_empty, if◌then◌else◌,
}
use wazire.Base.Text.{Text, text, text_eq, trim, is_space, join}
use wazire.Base.Dict.{lookup, delete}
use wazire.Base.Value.{Value, undefined, null, str, obj, Fields, end, field, is_truthy, prop, keys}
use wazire.Http.Types.{World, plain, Result, ok, throw, Platform}
use wazire.Http.Envelope.{or_value, or_default, message_text}
use wazire.Apis.Enrollment.{set_field}
use wazire.Session.Auth
use wazire.Session.Auth.{user_key, refresh_key, set_item, RegisterPayload}

-- The key of the token here.
abbrev pub token_key : Text
token_key = text "access_token"

abbrev names : Platform → List Value → List Text
names p [] = []
names p (v ∷ vs) = if is_truthy v then message_text p v ∷ names p vs else names p vs

abbrev spread : Value → Fields
spread (obj fs) = fs
spread v = end

abbrev name_part : Text → Value → Value
name_part key u = or_default (prop key u) (str [])

unfoldable pub full_name : Platform → Value → Value
full_name p u =
    or_value
      (str (
        join (text " ") (
          names p (
            name_part (text "first_name") u
            ∷ name_part (text "middle_name") u
            ∷ name_part (text "last_name") u
            ∷ []))))
      (or_value (prop (text "name") u) (or_value (prop (text "email") u) (str [])))

-- `normalizeUser`.
unfoldable pub normalize_user : Platform → Value → Value
unfolding full_name set_field
normalize_user p u = obj (set_field (text "name") (full_name p u) (spread u))

pub record Context : Type 0 where
  pub user : Value  -- null at first
  pub auth_loading : Bool
  pub world : World

abbrev pub is_authenticated : Context → Bool
is_authenticated c = is_truthy c.user

-- `split(/\s+/)`: `in_gap` says that a separator goes on, `word` is the current part, reversed.
unfoldable pub words_from : Bool → Text → Text → List Text
unfolding is_space
words_from in_gap word [] = reverse word ∷ []
words_from in_gap word (c ∷ s) =
    let gap = words_from true [] s in
    let rest = words_from false (c ∷ word) s in
    if is_space c then (if in_gap then gap else reverse word ∷ gap) else rest

abbrev first_of : List Text → Text
first_of [] = []
first_of (w ∷ ws) = w

abbrev rest_of : List Text → List Text
rest_of [] = []
rest_of (w ∷ ws) = ws

-- What is sent to register: the first word of the name, and the others.
unfoldable pub registration : Text → Text → Text → Text → RegisterPayload
unfolding words_from trim join
registration name email password role =
    let parts = words_from false [] (trim name) in
    record {
      first_name = first_of parts;
      last_name = join (text " ") (rest_of parts);
      email = email;
      password = password;
      rest = field (text "role") (str role) end;
    }

-- `denied` is the message of what localStorage throws, and `parse` is `JSON.parse`, none where it
-- throws.
module _ (p : Platform) (denied : Text) (parse : Text → Option Value) where
  abbrev pub Outcome : Type 0
  Outcome = Result Value × Context

  -- `localStorage.setItem(USER_KEY, …)` behind the state of the user, and what the call then gives.
  abbrev stored_as : Value → Context → Outcome
  stored_as u c =
      if c.world.blocked
      then (throw (plain denied), c)
      else (ok u, record c { world = set_item user_key (p.stringify u) c.world })

  -- `setUser`.
  unfoldable pub set_user : Value → Context → Outcome
  unfolding normalize_user
  set_user u c =
      if is_truthy u
      then stored_as (normalize_user p u) (record c { user = normalize_user p u })
      else if c.world.blocked
      then (throw (plain denied), record c { user = null })
      else (
        ok undefined,
        record c {
          user = null;
          world = record c.world { storage = delete user_key c.world.storage };
        },
      )

  abbrev parsed : Option Value → Context → Context
  parsed none c = c
  parsed (some u) c = record c { user = u }

  abbrev restored : Option Text → Context → Context
  restored none c = c
  restored (some stored) c = if is_empty stored then c else parsed (parse stored) c

  -- The user that localStorage keeps, if it can be read.
  unfoldable pub restore : Context → Context
  restore c = restored (if c.world.blocked then none else lookup user_key c.world.storage) c

  abbrev fetched : Result Value × World → Context → Context
  fetched (ok u, w) c = (set_user u (record c { world = w })).1
  fetched (throw f, w) c = restore (record c { world = w })

  abbrev init_with : Option Text → Context → Context
  init_with none c = restore c
  init_with (some token) c = if is_empty token then restore c else fetched (Auth.me p c.world) c

  -- `init`, which runs once.
  unfoldable pub init : Context → Context
  unfolding restore set_user
  init c =
      record (init_with (if c.world.blocked then none else lookup token_key c.world.storage) c) {
        auth_loading = false;
      }

  -- `'user' in rawData ? rawData.user : rawData`.
  abbrev raw_user : Value → Value
  raw_user (obj fs) =
      if any (text_eq (text "user")) (keys fs) then prop (text "user") (obj fs) else obj fs
  raw_user v = v

  abbrev signed_in : Value → Context → Outcome
  signed_in u c =
      if is_truthy u
      then stored_as (normalize_user p u) (record c { user = normalize_user p u })
      else (throw (plain (text "Invalid login response: no user data")), c)

  abbrev logged_in : Result Value × World → Context → Outcome
  logged_in (throw f, w) c = (throw f, record c { world = w })
  logged_in (ok d, w) c = signed_in (raw_user d) (record c { world = w })

  unfoldable pub login : Text → Text → Context → Outcome
  unfolding normalize_user
  login email password c = logged_in (Auth.login p email password c.world) c

  -- The access token, where there is one, and with it the refresh token.
  abbrev keep_tokens : Value → World → World
  keep_tokens tokens w =
      if is_truthy (prop (text "access_token") tokens)
      then (let w' = set_item token_key (message_text p (prop (text "access_token") tokens)) w in
          if is_truthy (prop (text "refresh_token") tokens)
          then set_item refresh_key (message_text p (prop (text "refresh_token") tokens)) w'
          else w')
      else w

  abbrev registered_user : Value → Value → Context → Outcome
  registered_user d u c =
      if is_truthy u
      then (if c.world.blocked && is_truthy (prop (text "access_token") (prop (text "tokens") d))
          then (throw (plain denied), c)
          else set_user u (record c { world = keep_tokens (prop (text "tokens") d) c.world }))
      else (throw (plain (text "Invalid login response after registration")), c)

  abbrev entered : Result Value × World → Context → Outcome
  entered (throw f, w) c = (throw f, record c { world = w })
  entered (ok d, w) c = registered_user d (raw_user d) (record c { world = w })

  abbrev registered : Result Value × World → Text → Text → Context → Outcome
  registered (throw f, w) email password c = (throw f, record c { world = w })
  registered (ok d, w) email password c = entered (Auth.login p email password w) c

  unfoldable pub register : ℕ → Text → Text → Text → Text → Context → Outcome
  unfolding registration set_user
  register min_length name email password role c =
      registered (Auth.register p min_length (registration name email password role) c.world) email
        password c

  unfoldable pub logout : Context → Context
  logout c = if c.world.blocked then record c { user = null } else record c {
    user = null;
    world = record c.world {
      storage = delete refresh_key (delete token_key (delete user_key c.world.storage));
    };
  }
