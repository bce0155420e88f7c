-- ===== src/MobileApi/Origin.antt =====
-- That the web application takes the requests of the mobile client for its own.
use ai_voice_assistants.Common.{
  ◌≡◌, refl, sym, ap, subst, ◌∙◌, ◌⊎◌, ℕ, Bool-cases, eq_iff, inl, inr, String, true, false, ◌||◌,
  Option, none, some, List, [], str_eq, eq_refl,
}
use ai_voice_assistants.Web.Request.{
  Url, Headers, Request, header, get, text, is_safe, same, normalize_origin, expected_origin,
  is_same_origin_mutation,
}
use ai_voice_assistants.Web.UriComponent.{encode_uri_component}
use ai_voice_assistants.MobileApi.Operations.{
  Operation, Call, call_of, request_origin, cancel_call, check_session, sign_out, google_sign_in,
  sign_in_email, sign_up_email, execute_tool, google_status, google_url, google_disconnect,
  get_company_profile, save_company_profile, get_assistant_config, get_assistant_versions,
  validate_assistant_config, store_assistant_config, get_three_cx, disconnect_three_cx,
  save_three_cx, get_call_history, get_tasks, cancel_task,
}

-- The request that the server sees: the call, at the server's origin.
abbrev pub arrives : String → Call → Request
arrives origin call = record {
  method = call.method;
  origin = origin;
  query = [];
  headers = call.headers;
  body = "";
}

same_self : (o : String) → str_eq o "" ≡ false → same (some o) (some o) ≡ true
same_self o there = rw (there, eq_refl o) refl

header-text :
    (headers : Headers) (o : String)
    → get "origin" headers ≡ some (text o)
    → str_eq o "" ≡ false
    → header "origin" headers ≡ some o
unfolding header
header-text headers o h there = rw (h, header, there) refl

module _ (parse_url : String → Option Url) where
  origin-parsed :
      (url : Url) (web_base : String)
      → parse_url web_base ≡ some url
      → request_origin parse_url web_base ≡ url.origin
  unfolding request_origin
  origin-parsed url web_base h = rw (h, request_origin) refl

  -- A URL that is nothing but an origin of the web.
  pub record IsOrigin (origin : String) : Type 0 where
    pub url : Url
    pub parsed : parse_url origin ≡ some url
    pub web : (str_eq url.protocol "http:" || str_eq url.protocol "https:") ≡ true
    pub no_username : str_eq url.username "" ≡ true
    pub no_password : str_eq url.password "" ≡ true
    pub root : str_eq url.pathname "/" ≡ true
    pub no_search : str_eq url.search "" ≡ true
    pub no_hash : str_eq url.hash "" ≡ true
    pub own : str_eq origin url.origin ≡ true
    pub there : str_eq origin "" ≡ false

  normalize_origin-IsOrigin :
      (origin : String) → IsOrigin origin → normalize_origin parse_url (some origin) ≡ some origin
  unfolding normalize_origin
  normalize_origin-IsOrigin origin h =
      rw
        (
          h.there, h.parsed, h.web, h.no_username, h.no_password, h.root, h.no_search, h.no_hash,
          h.own,
        )
        (ap some (sym ((eq_iff origin h.url.origin).0 h.own)))

  module _ (web_base callback_url : String) where
    -- A call that only reads, or that names the origin of the web application.
    abbrev HasOrigin : Call → Type 0
    HasOrigin call =
        (is_safe call.method ≡ true)
        ⊎ (get "origin" call.headers ≡ some (text (request_origin parse_url web_base)))

    abbrev AreMarked : Option Call → Type 0
    AreMarked none = Unit
    AreMarked (some call) = HasOrigin call

    cancel-AreMarked :
        (id : Option (List ℕ)) → AreMarked (cancel_call parse_url web_base callback_url id)
    unfolding get
    cancel-AreMarked none = tt
    cancel-AreMarked (some id) = inr refl

    call_of-AreMarked : (o : Operation) → AreMarked (call_of parse_url web_base callback_url o)
    unfolding call_of get
    call_of-AreMarked check_session = inl refl
    call_of-AreMarked (sign_in_email email password) = inr refl
    call_of-AreMarked (sign_up_email email password name) = inr refl
    call_of-AreMarked google_sign_in = inr refl
    call_of-AreMarked sign_out = inr refl
    call_of-AreMarked (execute_tool name args) = inr refl
    call_of-AreMarked google_status = inl refl
    call_of-AreMarked google_url = inl refl
    call_of-AreMarked google_disconnect = inr refl
    call_of-AreMarked get_company_profile = inl refl
    call_of-AreMarked (save_company_profile profile) = inr refl
    call_of-AreMarked get_assistant_config = inl refl
    call_of-AreMarked get_assistant_versions = inl refl
    call_of-AreMarked (validate_assistant_config payload) = inr refl
    call_of-AreMarked (store_assistant_config payload) = inr refl
    call_of-AreMarked get_three_cx = inl refl
    call_of-AreMarked (save_three_cx payload) = inr refl
    call_of-AreMarked disconnect_three_cx = inr refl
    call_of-AreMarked (get_call_history limit) = inl refl
    call_of-AreMarked (get_tasks limit) = inl refl
    call_of-AreMarked (cancel_task id) = cancel-AreMarked (encode_uri_component id)

    marked-passes :
        (app_origin : Option String) (url : Url) (call : Call)
        → parse_url web_base ≡ some url
        → IsOrigin url.origin
        → expected_origin parse_url app_origin (arrives url.origin call) ≡ some url.origin
        → HasOrigin call
        → is_same_origin_mutation parse_url app_origin (arrives url.origin call) ≡ true
    unfolding is_same_origin_mutation
    marked-passes app_origin url call h bare e (inl safe) = rw safe refl
    marked-passes app_origin url call h bare e (inr named) =
        elim (Bool-cases (is_safe call.method)) [
          | inl safe ↦ rw safe refl
          | inr changes ↦
              rw
                (
                  changes,
                  header-text call.headers url.origin
                      (named ∙ ap (λ o. some (text o)) (origin-parsed url web_base h)) bare.there,
                  normalize_origin-IsOrigin url.origin bare,
                  e,
                )
                (same_self url.origin bare.there)
        ]

    -- Every request of the mobile client passes the same-origin test of the server that it is sent to, if
    -- the server expects its own origin, and this origin is one of the web, which the parser takes for itself.
    pub is_same_origin_mutation-call_of :
        (o : Operation) (app_origin : Option String) (url : Url) (call : Call)
        → call_of parse_url web_base callback_url o ≡ some call
        → parse_url web_base ≡ some url
        → IsOrigin url.origin
        → expected_origin parse_url app_origin (arrives url.origin call) ≡ some url.origin
        → is_same_origin_mutation parse_url app_origin (arrives url.origin call) ≡ true
    is_same_origin_mutation-call_of o app_origin url call h parsed bare e =
        marked-passes app_origin url call parsed bare e (subst AreMarked h (call_of-AreMarked o))
