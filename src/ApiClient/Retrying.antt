-- ===== src/ApiClient/Retrying.antt =====
-- How often a call of the backend is sent, with which token, and what it answers.
use agentsecrets.Prelude.{
  ◌≡◌, ◌≢◌, ◌⊎◌, inl, inr, refl, Bool, true, false, Option, none, some, List, [], ◌∷◌, ◌++◌, ◌==◌,
  if◌then◌else◌, is_empty, Bool-cases, sym, ==_iff, arith,
}
use agentsecrets.Text.{Str, to_upper}
use agentsecrets.ApiClient.{
  ApiClient, ApiRequest, ApiResponse, Payload, empty, json, unmarshalable, do_request,
  refresh_and_retry, on_response, call_path, call_data, call_ctx, resolve_endpoint, is_public,
  url_of,
}

-- Nothing can be sent: there is no such endpoint, the data do not marshal, or net/http makes no
-- request of the method and the URL.
abbrev pub IsUnsendable : ApiClient → Str → Payload → List (Str × Str) → Option Str → Type 0
IsUnsendable c method payload query path =
    (path ≡ none)
    ⊎ ((payload ≡ unmarshalable)
        ⊎ ((p : Str) × (path ≡ some p)
            × (c.makes_request method (url_of c.base_url p query) ≡ false)))

abbrev pub HasBody : Payload → Option Str → Type 0
HasBody empty body = body ≡ none
HasBody (json text) body = body ≡ some text
HasBody unmarshalable body = ⊥

-- The request of a call: the endpoint's URL, the data, and the current token.
abbrev pub IsFirst : ApiClient → Str → Payload → List (Str × Str) → Option Str → ApiRequest → Type 0
IsFirst c method payload query path req =
    (p : Str) × (path ≡ some p)
    × (req.url ≡ url_of c.base_url p query)
    × (req.method ≡ method)
    × HasBody payload req.body
    × (req.token ≡ c.get_token)

-- There is no second request: the first brought no answer, or one that is not 401, or the endpoint is
-- public, or no new token is to be had.
abbrev pub IsFinal : ApiClient → Bool → List ApiRequest → ApiRequest → Type 0
IsFinal c open_to_all sent req =
    (c.send sent req ≡ none)
    ⊎ ((first : ApiResponse) × (c.send sent req ≡ some first)
        × ((first.status_code ≢ 401)
            ⊎ ((open_to_all ≡ true) ⊎ ((c.refresh_fn ≡ none) ⊎ (c.refresh_fn ≡ some none)))))

-- The second request is the first one with the new token, after an answer of 401 at an endpoint that
-- wants a token.
abbrev pub IsRetry : ApiClient → Bool → List ApiRequest → ApiRequest → ApiRequest → Type 0
IsRetry c open_to_all sent req again =
    (token : Str) × (first : ApiResponse) × (open_to_all ≡ false)
    × (c.send sent req ≡ some first)
    × (first.status_code ≡ 401)
    × (c.refresh_fn ≡ some (some token))
    × (again.url ≡ req.url)
    × (again.method ≡ req.method)
    × (again.body ≡ req.body)
    × (again.token ≡ (if is_empty token then c.get_token else token))

-- What a call answers and has sent, once its first request is.
abbrev pub IsFollowed :
    ApiClient → Bool → List ApiRequest → ApiRequest → Option ApiResponse × List ApiRequest → Type 0
IsFollowed c open_to_all sent req (answer, after) =
    ((after ≡ sent ++ req ∷ []) × (answer ≡ c.send sent req) × IsFinal c open_to_all sent req)
    ⊎ ((again : ApiRequest) × (after ≡ (sent ++ req ∷ []) ++ again ∷ [])
        × (answer ≡ c.send (sent ++ req ∷ []) again)
        × IsRetry c open_to_all sent req again)

-- What a call answers and has sent, of the path of its endpoint.
abbrev pub IsSent :
    ApiClient
    → Bool
    → Str
    → Payload
    → List (Str × Str)
    → Option Str
    → List ApiRequest
    → Option ApiResponse × List ApiRequest
    → Type 0
IsSent c open_to_all method payload query path sent (answer, after) =
    ((after ≡ sent) × (answer ≡ none) × IsUnsendable c method payload query path)
    ⊎ ((req : ApiRequest) × IsFirst c method payload query path req
        × IsFollowed c open_to_all sent req (answer, after))

module _ (c : ApiClient) (method url : Str) (body : Option Str) (sent : List ApiRequest)
    (req : ApiRequest) (u : req.url ≡ url) (m : req.method ≡ method) (b : req.body ≡ body)
    (makes : c.makes_request method url ≡ true) where
  retry-IsFollowed :
      (first : ApiResponse) (o : Option (Option Str))
      → c.refresh_fn ≡ o
      → c.send sent req ≡ some first
      → first.status_code ≡ 401
      → IsFollowed c false sent req (refresh_and_retry c method url body first o (sent ++ req ∷ []))
  unfolding refresh_and_retry do_request
  retry-IsFollowed first none e s h = inl (refl, sym s, inr (first, s, inr (inr (inl e))))
  retry-IsFollowed first (some none) e s h = inl (refl, sym s, inr (first, s, inr (inr (inr e))))
  retry-IsFollowed first (some (some token)) e s h =
      rw makes (inr (_, refl, refl, (token, first, refl, s, h, e, sym u, sym m, sym b, refl)))

  on_response-IsFollowed :
      (open_to_all : Bool) (o : Option ApiResponse)
      → c.send sent req ≡ o
      → IsFollowed c open_to_all sent req
          (on_response c open_to_all method url body o (sent ++ req ∷ []))
  on_response-IsFollowed open_to_all none s = inl (refl, sym s, inl s)
  on_response-IsFollowed true (some first) s = elim (Bool-cases (first.status_code == 401)) [
    | inl a ↦ rw a (inl (refl, sym s, inr (first, s, inr (inl refl))))
    | inr a ↦ rw a (inl (refl, sym s, inr (first, s, inr (inl refl))))
  ]
  on_response-IsFollowed false (some first) s = elim (Bool-cases (first.status_code == 401)) [
    | inl a ↦ rw a (retry-IsFollowed first c.refresh_fn refl s ((==_iff first.status_code 401).0 a))
    | inr a ↦ rw a (
        inl (
          refl,
          sym s,
          inr (first, s, inl (λ e. ground (arith, a, (==_iff first.status_code 401).1 e))),
        ))
  ]

module _ (c : ApiClient) (open_to_all : Bool) (method : Str) (query : List (Str × Str))
    (sent : List ApiRequest) where
  call_path-IsSent :
      (payload : Payload) (body : Option Str) (path : Option Str)
      → HasBody payload body
      → IsSent c open_to_all method payload query path sent
          (call_path c open_to_all method body query path sent)
  unfolding do_request
  call_path-IsSent payload body none has = inl (refl, refl, inl refl)
  call_path-IsSent payload body (some p) has =
      elim (Bool-cases (c.makes_request method (url_of c.base_url p query))) [
        | inl a ↦ rw a (
            inr (
              _,
              (p, refl, refl, refl, has, refl),
              on_response-IsFollowed c method (url_of c.base_url p query) body sent _ refl refl refl
                  a open_to_all _ refl,
            ))
        | inr a ↦ rw a (inl (refl, refl, inr (inr (p, refl, a))))
      ]

  call_data-IsSent :
      (payload : Payload) (path : Option Str)
      → IsSent c open_to_all method payload query path sent
          (call_data c open_to_all method payload query path sent)
  call_data-IsSent empty path = call_path-IsSent empty none path refl
  call_data-IsSent (json text) path = call_path-IsSent (json text) (some text) path refl
  call_data-IsSent unmarshalable path = inl (refl, refl, inr (inl refl))

-- A call of the backend sends nothing and fails if there is no such endpoint, if its data do not
-- marshal, or if net/http makes no request of it. Otherwise it sends the endpoint's request with the
-- current token, and answers what that brings, unless it is 401, the endpoint wants a token and a
-- refresh gives a new one: then it sends the same request once more with the new token, and answers
-- what that brings.
pub call_ctx-IsSent :
    (c : ApiClient) (category action method : Str) (payload : Payload)
    (params query : List (Str × Str)) (sent : List ApiRequest)
    → IsSent c
        (is_public category action)
        (to_upper method)
        payload
        query
        (resolve_endpoint category action params)
        sent
        (call_ctx c category action method payload params query sent)
unfolding call_ctx
call_ctx-IsSent c category action method payload params query sent =
    call_data-IsSent c (is_public category action) (to_upper method) query sent payload
      (resolve_endpoint category action params)
