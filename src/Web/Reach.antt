-- ===== src/Web/Reach.antt =====
-- Which requests reach the routes of web/web.go.
use tasker.Base.{
  Bool, true, false, Option, none, some, List, [], ◌∷◌, ◌++◌, String, ◌≡◌, refl, sym, subst,
  Bool-cases, inl, inr, All, All-append,
}
use tasker.Web.{Request, Response, Site}
use tasker.Web.Answers.{Handler}
use tasker.Web.Guard.{
  is_safe, same_token, csrf_middleware, give_token, Wrapper, Server, new_server, use_middleware,
  use_auth, use_csrf, cookie_path, unauthorized, wrap_all, handler,
}

module _ {W Q G J : Type 0} where
  -- A handler changes nothing for the requests of a class.
  abbrev pub Harmless : (Request → Type 0) → Handler W Q G J → Type 0
  Harmless P h = (r : Request) (s : Site W) → P r → (h r s).1 ≡ s

  -- A middleware around a handler that changes nothing for them changes nothing for them.
  abbrev pub KeepsHarmless : (Request → Type 0) → Wrapper W Q G J → Type 0
  KeepsHarmless P mw = (h : Handler W Q G J) → Harmless P h → Harmless P (mw h)

-- The calls that set a server up.
pub data Setup (W Q G J : Type 0) : Type 0 where
  with_middleware : Wrapper W Q G J → Setup W Q G J
  with_auth : Wrapper W Q G J → Setup W Q G J
  with_csrf : Option String → Setup W Q G J

module _ {W Q G J : Type 0} where
  abbrev pub set_up : Setup W Q G J → Server W Q G J → Server W Q G J
  set_up (with_middleware mw) v = use_middleware mw v
  set_up (with_auth mw) v = use_auth mw v
  set_up (with_csrf token) v = use_csrf token v

  abbrev pub build : List (Setup W Q G J) → Server W Q G J → Server W Q G J
  build [] v = v
  build (c ∷ cs) v = build cs (set_up c v)

  abbrev pub has_csrf : List (Setup W Q G J) → Bool
  has_csrf [] = false
  has_csrf (with_middleware mw ∷ cs) = has_csrf cs
  has_csrf (with_auth mw ∷ cs) = has_csrf cs
  has_csrf (with_csrf token ∷ cs) = true

  abbrev pub has_auth : List (Setup W Q G J) → Bool
  has_auth [] = false
  has_auth (with_middleware mw ∷ cs) = has_auth cs
  has_auth (with_auth mw ∷ cs) = true
  has_auth (with_csrf token ∷ cs) = has_auth cs

  -- The middlewares of the host keep handlers harmless.
  abbrev pub HostKeeps : (Request → Type 0) → Setup W Q G J → Type 0
  HostKeeps P (with_middleware mw) = KeepsHarmless P mw
  HostKeeps P (with_auth mw) = KeepsHarmless P mw
  HostKeeps P (with_csrf token) = Unit

-- A request that is not safe and has not the same token in its cookie and its header.
abbrev pub Forged : Request → Type 0
Forged r = (is_safe r.method ≡ false) × (same_token r.csrf_cookie r.csrf_header ≡ false)

module _ {W Q G J : Type 0} where
  csrf_middleware-Harmless :
      (path : String) (token : Option String) (h : Handler W Q G J)
      → Harmless Forged (csrf_middleware path token h)
  unfolding csrf_middleware
  csrf_middleware-Harmless path token h r s (unsafe, wrong) = rw (unsafe, wrong) refl

  wrap_all-append :
      (ms ns : List (Wrapper W Q G J)) (h : Handler W Q G J)
      → wrap_all (ms ++ ns) h ≡ wrap_all ms (wrap_all ns h)
  wrap_all-append [] ns h = refl
  wrap_all-append (m ∷ ms) ns h = cc (wrap_all-append ms ns h)

module _ {W Q G J : Type 0} (P : Request → Type 0) where
  give_token-site :
      (path : String) (token cookie : Option String) (served : Response Q G J × Site W) (s : Site W)
      → served.1 ≡ s
      → (give_token path token cookie served s).1 ≡ s
  give_token-site path token (some value) served s e = e
  give_token-site path (some t) none served s e = e
  give_token-site path none none served s e = refl

  csrf_middleware-Keeps :
      (path : String) (token : Option String)
      → KeepsHarmless P (csrf_middleware {W = W} {Q = Q} {G = G} {J = J} path token)
  unfolding csrf_middleware
  csrf_middleware-Keeps path token h harmless r s p = elim (Bool-cases (is_safe r.method)) [
    | inl safe ↦ rw safe (give_token-site path token r.csrf_cookie (h r s) s (harmless r s p))
    | inr unsafe ↦ rw unsafe (elim (Bool-cases (same_token r.csrf_cookie r.csrf_header)) [
      | inl same ↦ rw same (harmless r s p)
      | inr wrong ↦ rw wrong refl
    ])
  ]

  wrap_all-Harmless :
      (mws : List (Wrapper W Q G J)) (h : Handler W Q G J)
      → All (KeepsHarmless P) mws
      → Harmless P h
      → Harmless P (wrap_all mws h)
  wrap_all-Harmless [] h keep harmless = harmless
  wrap_all-Harmless (mw ∷ mws) h keep harmless =
      keep.0 (wrap_all mws h) (wrap_all-Harmless mws h keep.1 harmless)

  setup-Keeps :
      (c : Setup W Q G J) (v : Server W Q G J)
      → HostKeeps P c
      → All (KeepsHarmless P) v.middlewares
      → All (KeepsHarmless P) (set_up c v).middlewares
  setup-Keeps (with_middleware mw) v k all =
      All-append (KeepsHarmless P) v.middlewares (mw ∷ []) all (k, tt)
  setup-Keeps (with_auth mw) v k all =
      All-append (KeepsHarmless P) v.middlewares (mw ∷ []) all (k, tt)
  setup-Keeps (with_csrf token) v k all =
      All-append (KeepsHarmless P) v.middlewares (csrf_middleware (cookie_path v) token ∷ []) all
        (csrf_middleware-Keeps (cookie_path v) token, tt)

  build-Keeps :
      (cs : List (Setup W Q G J)) (v : Server W Q G J)
      → All (HostKeeps P) cs
      → All (KeepsHarmless P) v.middlewares
      → All (KeepsHarmless P) (build cs v).middlewares
  build-Keeps [] v ks all = all
  build-Keeps (c ∷ cs) v ks all = build-Keeps cs (set_up c v) ks.1 (setup-Keeps c v ks.0 all)

module _ {W Q G J : Type 0} where
  no_auth :
      (cs : List (Setup W Q G J)) (v : Server W Q G J)
      → has_auth cs ≡ false
      → v.auth_enabled ≡ false
      → (build cs v).auth_enabled ≡ false
  no_auth [] v none_of off = off
  no_auth (with_middleware mw ∷ cs) v none_of off = no_auth cs (use_middleware mw v) none_of off
  no_auth (with_auth mw ∷ cs) v none_of off = cc
  no_auth (with_csrf token ∷ cs) v none_of off = no_auth cs (use_csrf token v) none_of off

  -- A server that is set up without UseAuth, with host middlewares that keep a handler that changes
  -- nothing from changing anything, changes nothing for any request, whatever its routes do.
  pub handler-without_auth :
      (prefix : String) (cs : List (Setup W Q G J)) (mux : Handler W Q G J)
      → All (HostKeeps (λ r. Unit)) cs
      → has_auth cs ≡ false
      → (r : Request) (s : Site W) → (handler (build cs (new_server prefix)) mux r s).1 ≡ s
  unfolding handler
  handler-without_auth prefix cs mux ks none_of r s =
      rw (no_auth cs (new_server prefix) none_of refl) (
        wrap_all-Harmless (λ r. Unit) (build cs (new_server prefix)).middlewares unauthorized
          (build-Keeps (λ r. Unit) cs (new_server prefix) ks tt) (λ r s u. refl) r s tt)

  -- Whatever the handler inside is, nothing is changed for forged requests.
  abbrev Guarding : Server W Q G J → Type 0
  Guarding v = (h : Handler W Q G J) → Harmless Forged (wrap_all v.middlewares h)

  use_middleware-Guarding :
      (mw : Wrapper W Q G J) (v : Server W Q G J) → Guarding v → Guarding (use_middleware mw v)
  use_middleware-Guarding mw v g h =
      subst (Harmless Forged) (sym (wrap_all-append v.middlewares (mw ∷ []) h)) (g (mw h))

  build-Guarding :
      (cs : List (Setup W Q G J)) (v : Server W Q G J) → Guarding v → Guarding (build cs v)
  build-Guarding [] v g = g
  build-Guarding (with_middleware mw ∷ cs) v g =
      build-Guarding cs (use_middleware mw v) (use_middleware-Guarding mw v g)
  build-Guarding (with_auth mw ∷ cs) v g =
      build-Guarding cs (use_auth mw v) (use_middleware-Guarding mw v g)
  build-Guarding (with_csrf token ∷ cs) v g =
      build-Guarding cs (use_csrf token v)
        (use_middleware-Guarding (csrf_middleware (cookie_path v) token) v g)

  csrf-Guarding :
      (cs : List (Setup W Q G J)) (v : Server W Q G J)
      → All (HostKeeps Forged) cs
      → All (KeepsHarmless Forged) v.middlewares
      → has_csrf cs ≡ true
      → Guarding (build cs v)
  csrf-Guarding [] v ks all has = cc
  csrf-Guarding (with_middleware mw ∷ cs) v ks all has =
      csrf-Guarding cs (use_middleware mw v) ks.1
        (setup-Keeps Forged (with_middleware mw) v ks.0 all) has
  csrf-Guarding (with_auth mw ∷ cs) v ks all has =
      csrf-Guarding cs (use_auth mw v) ks.1 (setup-Keeps Forged (with_auth mw) v ks.0 all) has
  csrf-Guarding (with_csrf token ∷ cs) v ks all has = build-Guarding cs (use_csrf token v) (λ h.
      subst (Harmless Forged)
        (sym (wrap_all-append v.middlewares (csrf_middleware (cookie_path v) token ∷ []) h))
        (wrap_all-Harmless Forged v.middlewares _ all
          (csrf_middleware-Harmless (cookie_path v) token h)))

  -- A server that is set up with UseCSRF, wherever it stands among the middlewares, with host
  -- middlewares that keep a handler that changes nothing for forged requests from changing anything
  -- for them, changes nothing for a request that is not GET, HEAD or OPTIONS and does not have the
  -- same token, not empty, in its cookie and in its header, whatever its routes do.
  pub handler-Forged :
      (prefix : String) (cs : List (Setup W Q G J)) (mux : Handler W Q G J)
      → All (HostKeeps Forged) cs
      → has_csrf cs ≡ true
      → (r : Request) (s : Site W) → is_safe r.method ≡ false
      → same_token r.csrf_cookie r.csrf_header ≡ false
      → (handler (build cs (new_server prefix)) mux r s).1 ≡ s
  unfolding handler
  handler-Forged prefix cs mux ks has r s unsafe wrong =
      csrf-Guarding cs (new_server prefix) ks tt has _ r s (unsafe, wrong)
