-- ===== src/Http/Interceptors.antt =====
-- What the interceptors of frontend/src/apis/client.ts do around a request.
use wazire.Base.{
  ◌≡◌, ◌≢◌, refl, Bool, false, ◌||◌, none, some, ◌∷◌, arith, ◌==◌, leb, if◌then◌else◌,
}
use wazire.Base.Text.{Text, text, text_eq}
use wazire.Base.Dict.{lookup, delete, lookup-delete}
use wazire.ErrorTracking.{track}
use wazire.Http.Types.{Request, Response, AxiosError, axios, rejected, World, Platform, throw}
use wazire.Http.Client.{send, attach, on_error}

-- The keys of localStorage that belong to the session.
abbrev pub is_session_key : Platform → Text → Bool
is_session_key p k =
    text_eq (text "refresh_token") k || (text_eq (text "wazire_user") k || text_eq p.token_key k)

pub on_error_unauthorized :
    (p : Platform) (r : Request) (w : World) (e : AxiosError) (resp : Response)
    → w.blocked ≡ false
    → e.response ≡ some resp
    → resp.status ≡ 401
    → on_error p e r w ≡ record w {
      storage =
          delete
            (text "refresh_token")
            (delete (text "wazire_user") (delete p.token_key w.storage));
      location = text "/login";
    }
unfolding on_error
on_error_unauthorized p r w e resp open_storage has is_401 =
    rw (has, on_error) (rw is_401 (rw open_storage refl))

pub lookup-ended :
    (p : Platform) (w : World) (k : Text)
    → lookup k
        (delete (text "refresh_token") (delete (text "wazire_user") (delete p.token_key w.storage)))
      ≡ (if is_session_key p k then none else lookup k w.storage)
lookup-ended p w k = simp lookup-delete (ground arith)

module _ (p : Platform) (r : Request) (w : World) (e : AxiosError) (resp : Response) where
  -- A request that the server rejects with status 401, where localStorage can be used, ends the
  -- session: the token, the refresh token and the user are gone from localStorage, every other key
  -- keeps its value, the browser goes to the login page, and the caller gets the rejection.
  pub unauthorized_ends_session :
      (k : Text)
      → w.blocked ≡ false
      → e.response ≡ some resp
      → resp.status ≡ 401
      → p.reply w.sent (attach p w r) ≡ rejected e
      → let (x, w') = send p r w in
        (x ≡ throw (axios e))
        × (w'.location ≡ text "/login")
        × (lookup k w'.storage ≡ (if is_session_key p k then none else lookup k w.storage))
  unfolding send
  unauthorized_ends_session k open_storage has is_401 reply =
      rw (reply, send)
        (rw
          (on_error_unauthorized p (attach p w r) (record w { sent = attach p w r ∷ w.sent }) e resp
            open_storage has is_401)
          (refl, refl, lookup-ended p w k))

  -- A request that the server rejects with a status other than 401 leaves localStorage and the
  -- address alone, the caller gets the rejection, and the error tracker keeps it exactly if the
  -- status is 403, 404 or at least 500.
  pub other_rejections_are_tracked :
      e.response ≡ some resp
      → resp.status ≢ 401
      → p.reply w.sent (attach p w r) ≡ rejected e
      → let (x, w') = send p r w in
        (x ≡ throw (axios e))
        × (w'.location ≡ w.location)
        × (w'.storage ≡ w.storage)
        × (w'.tracked ≡ (
            if (resp.status == 403) || ((resp.status == 404) || leb 500 resp.status)
            then track (record { error = axios e; status = resp.status; url = r.url }) w.tracked
            else w.tracked))
  unfolding send
  other_rejections_are_tracked has not_401 reply =
      rw (reply, send) (rw (has, on_error) (ground arith))
