-- ===== src/HttpClient/Redirects.antt =====
-- `_CredentialSafeSession` of redfish_sdk/http_client.py: the redirects that `requests` follows.
use redfish_python_sdk.Prelude.{
  ℕ, ◌≡◌, refl, sym, ◌∙◌, ap, ◌&&◌, ◌==◌, text_eq, text_eq_iff, lower, ◌⊎◌, inl, inr, Bool, true,
  false, none, List, [], ◌∷◌, ◌++◌, Text, All, All-append, arith, if◌then◌else◌,
}
use redfish_python_sdk.Result.{Result, ok, err, ◌>>=◌, >>=-eq-ok}
use redfish_python_sdk.Url.{SplitResult, urlsplit, hostname, or_empty}
use redfish_python_sdk.HttpClient.Defs.{Sent}
use redfish_python_sdk.HttpClient.Origin.{same_origin, same_authority, effective_port}
use redfish_python_sdk.HttpClient.Auth.Safe.{IsOwnTarget, IsGuarded}

-- A redirect: the method and the URL of the request that `requests` prepares for it.
abbrev pub Redirect : Type 0
Redirect = Text × Text

abbrev pub without_credentials : Sent → Sent
without_credentials s = record s { authorization = none; x_auth_token = none }

abbrev pub redirected : Sent → Redirect → Sent
redirected s (method, url) = record s { method = method; url = url }

module _ (should_strip_auth : Text → Text → Bool) where
  -- `requests.Session.rebuild_auth`, which removes the Authorization header where
  -- `should_strip_auth` says so.
  abbrev pub base_rebuild_auth : Text → Sent → Sent
  base_rebuild_auth from s =
      if should_strip_auth from s.url then record s { authorization = none } else s

  -- `rebuild_auth`, of the request that follows one that was redirected
  unfoldable pub rebuild_auth : Sent → Redirect → Result Sent
  unfolding same_origin
  rebuild_auth previous redirect = elim (same_origin previous.url redirect.1) [
    | err e ↦ err e
    | ok true ↦ ok (base_rebuild_auth previous.url (redirected previous redirect))
    | ok false ↦
        ok (base_rebuild_auth previous.url (without_credentials (redirected previous redirect)))
  ]

  -- The requests that follow one, for the redirects that the servers answer with; where
  -- `rebuild_auth` raises, none is sent.
  unfoldable pub follow : Sent → List Redirect → List Sent
  unfolding rebuild_auth
  follow previous [] = []
  follow previous (redirect ∷ redirects) = elim (rebuild_auth previous redirect) [
    | err e ↦ []
    | ok next ↦ next ∷ follow next redirects
  ]

  -- All that leaves for a log of requests: each request, and those that follow it. The redirects
  -- are the servers', in view of all the earlier requests.
  unfoldable pub wire : (List Sent → List Redirect) → List Sent → List Sent
  unfolding follow
  wire redirects [] = []
  wire redirects (s ∷ log) = (s ∷ follow s (redirects (s ∷ log))) ++ wire redirects log

-- The URL is written from a split target of the configured authority, or `_same_origin` holds of
-- such a URL and this one.
pub record IsNear (base url : Text) : Type 0 where
  pub start : Text
  pub own : IsOwnTarget base start
  pub near : (url ≡ start) ⊎ (same_origin start url ≡ ok true)

-- The request carries no credentials, or goes to the configured origin.
abbrev pub IsAtHome : Text → Sent → Type 0
IsAtHome base s = ((s.authorization ≡ none) × (s.x_auth_token ≡ none)) ⊎ IsNear base s.url

IsGuarded-IsAtHome : (base : Text) (s : Sent) → IsGuarded base s → IsAtHome base s
IsGuarded-IsAtHome base s (inl h) = inl h
IsGuarded-IsAtHome base s (inr h) = inr (record { start = s.url; own = h; near = inl refl })

-- The two have one authority: scheme, host name and effective port.
record IsOneAuthority (x y : SplitResult) : Type 0 where
  same_scheme : text_eq (lower x.scheme) (lower y.scheme) ≡ true
  same_host : text_eq (lower (or_empty (hostname x))) (lower (or_empty (hostname y))) ≡ true
  port : ℕ
  first_port : effective_port x ≡ ok port
  second_port : effective_port y ≡ ok port

ports_of :
    (r r' : Result ℕ)
    → (r >>= λ p. r' >>= λ q. ok (p == q)) ≡ ok true
    → (port : ℕ) × (r ≡ ok port) × (r' ≡ ok port)
ports_of (ok p) (ok q) h =
    let same : p ≡ q = ground (arith, h) in (p, refl, ap (λ n. ok n) (sym same))
ports_of (ok p) (err e) h = absurd (cc h)
ports_of (err e) r' h = absurd (cc h)

same_authority-IsOneAuthority :
    (x y : SplitResult) → same_authority x y ≡ ok true → IsOneAuthority x y
unfolding same_authority
same_authority-IsOneAuthority x y h =
    at_test (text_eq (lower x.scheme) (lower y.scheme)) refl
      (text_eq (lower (or_empty (hostname x))) (lower (or_empty (hostname y)))) refl h
  where
    at_test :
        (b : Bool)
        → text_eq (lower x.scheme) (lower y.scheme) ≡ b
        → (b' : Bool) → text_eq (lower (or_empty (hostname x))) (lower (or_empty (hostname y))) ≡ b'
        → (if b && b'
            then (effective_port x >>= λ p. effective_port y >>= λ q. ok (p == q))
            else ok false)
          ≡ ok true
        → IsOneAuthority x y
    at_test true e true e' k =
        let (p, f, g) = ports_of (effective_port x) (effective_port y) k in
        record { same_scheme = e; same_host = e'; port = p; first_port = f; second_port = g }
    at_test true e false e' k = absurd (cc k)
    at_test false e b' e' k = absurd (cc k)

IsOneAuthority-same_authority :
    (x y : SplitResult) → IsOneAuthority x y → same_authority x y ≡ ok true
unfolding same_authority
IsOneAuthority-same_authority x y h =
    rw (h.same_scheme, h.same_host, h.first_port, h.second_port) (ports_eq h.port)
  where
    ports_eq : (p : ℕ) → ok (p == p) ≡ ok true
    ports_eq p = ground arith

text_eq_trans : (s t u : Text) → text_eq s t ≡ true → text_eq t u ≡ true → text_eq s u ≡ true
text_eq_trans s t u h k = let same : s ≡ t = (text_eq_iff s t).0 h in rw same k

IsOneAuthority-trans :
    (x y z : SplitResult) → IsOneAuthority x y → IsOneAuthority y z → IsOneAuthority x z
IsOneAuthority-trans x y z f g = record {
  same_scheme = text_eq_trans _ _ _ f.same_scheme g.same_scheme;
  same_host = text_eq_trans _ _ _ f.same_host g.same_host;
  port = f.port;
  first_port = f.first_port;
  second_port = g.second_port ∙ (sym g.first_port ∙ f.second_port);
}

-- What `_same_origin` holds of: both split, with one authority.
record IsSplit (a b : Text) : Type 0 where
  first : SplitResult
  second : SplitResult
  first_split : urlsplit a ≡ ok first
  second_split : urlsplit b ≡ ok second
  one : IsOneAuthority first second

same_origin-IsSplit : (a b : Text) → same_origin a b ≡ ok true → IsSplit a b
unfolding same_origin
same_origin-IsSplit a b h =
    let (x, h', e) = >>=-eq-ok (λ x. urlsplit b >>= λ y. same_authority x y) (urlsplit a) h in
    let (y, h'', e') = >>=-eq-ok (λ y. same_authority x y) (urlsplit b) h' in
    record {
      first = x;
      second = y;
      first_split = e;
      second_split = e';
      one = same_authority-IsOneAuthority x y h'';
    }

one_split : (r : Result SplitResult) (x y : SplitResult) → r ≡ ok x → r ≡ ok y → x ≡ y
one_split r x y e e' = cc (e, e')

same_origin_trans :
    (a b c : Text)
    → same_origin a b ≡ ok true
    → same_origin b c ≡ ok true
    → same_origin a c ≡ ok true
unfolding same_origin
same_origin_trans a b c h k =
    let f = same_origin-IsSplit a b h in
    let g = same_origin-IsSplit b c k in
    let same = one_split (urlsplit b) f.second g.first f.second_split g.first_split in
    rw (f.first_split, g.second_split)
      (IsOneAuthority-same_authority f.first g.second
        (IsOneAuthority-trans f.first f.second g.second f.one (rw same g.one)))

same_origin-IsNear :
    (base from url : Text) → IsNear base from → same_origin from url ≡ ok true → IsNear base url
same_origin-IsNear base from url h k = record {
  start = h.start;
  own = h.own;
  near = inr (at_start h.near);
}
  where
    at_start :
        (from ≡ h.start) ⊎ (same_origin h.start from ≡ ok true) → same_origin h.start url ≡ ok true
    at_start (inl e) = rw (← e) k
    at_start (inr e) = same_origin_trans h.start from url e k

module _ (should_strip_auth : Text → Text → Bool) (base : Text) where
  stripped-IsAtHome :
      (from : Text) (s : Sent)
      → IsAtHome base s
      → IsAtHome base (base_rebuild_auth should_strip_auth from s)
  stripped-IsAtHome from s h = at_test (should_strip_auth from s.url) h
    where
      at_test :
          (b : Bool)
          → IsAtHome base s
          → IsAtHome base (if b then record s { authorization = none } else s)
      at_test true (inl (a, x)) = inl (refl, x)
      at_test true (inr n) = inr n
      at_test false k = k

  rebuild_auth-IsAtHome :
      (previous next : Sent) (redirect : Redirect)
      → IsAtHome base previous
      → rebuild_auth should_strip_auth previous redirect ≡ ok next
      → IsAtHome base next
  unfolding rebuild_auth
  rebuild_auth-IsAtHome previous next redirect h e =
      at_origin (same_origin previous.url redirect.1) refl e
    where
      value_of : (s : Sent) → ok s ≡ ok next → IsAtHome base s → IsAtHome base next
      value_of s q k = let same : s ≡ next = cc q in rw (← same) k

      moved :
          same_origin previous.url redirect.1 ≡ ok true
          → IsAtHome base previous
          → IsAtHome base (redirected previous redirect)
      moved q (inl k) = inl k
      moved q (inr n) = inr (same_origin-IsNear base previous.url redirect.1 n q)

      at_origin :
          (r : Result Bool)
          → same_origin previous.url redirect.1 ≡ r
          → elim r as (λ _. Result Sent) [
            | err x ↦ err x
            | ok true ↦
                ok (base_rebuild_auth should_strip_auth previous.url (redirected previous redirect))
            | ok false ↦ ok (
                base_rebuild_auth should_strip_auth previous.url
                  (without_credentials (redirected previous redirect)))
          ]
            ≡ ok next
          → IsAtHome base next
      at_origin (err x) q k = absurd (cc k)
      at_origin (ok true) q k =
          value_of _ k (stripped-IsAtHome previous.url (redirected previous redirect) (moved q h))
      at_origin (ok false) q k = value_of _ k (
          stripped-IsAtHome previous.url (without_credentials (redirected previous redirect))
            (inl (refl, refl)))

  follow-IsAtHome :
      (previous : Sent) (redirects : List Redirect)
      → IsAtHome base previous
      → All (IsAtHome base) (follow should_strip_auth previous redirects)
  unfolding follow
  follow-IsAtHome previous [] h = tt
  follow-IsAtHome previous (redirect ∷ redirects) h =
      at_next (rebuild_auth should_strip_auth previous redirect) refl
        (λ next k. follow-IsAtHome next redirects k)
    where
      at_next :
          (r : Result Sent)
          → rebuild_auth should_strip_auth previous redirect ≡ r
          → ((next : Sent)
              → IsAtHome base next
              → All (IsAtHome base) (follow should_strip_auth next redirects))
          → All (IsAtHome base) (elim r as (λ _. List Sent) [
            | err e ↦ []
            | ok next ↦ next ∷ follow should_strip_auth next redirects
          ])
      at_next (err e) q k = tt
      at_next (ok next) q k =
          let home = rebuild_auth-IsAtHome previous next redirect h q in (home, k next home)

  -- Where the requests of a log are guarded, all that leaves for them stays at home.
  pub wire-IsAtHome :
      (redirects : List Sent → List Redirect) (log : List Sent)
      → All (IsGuarded base) log
      → All (IsAtHome base) (wire should_strip_auth redirects log)
  unfolding wire
  wire-IsAtHome redirects [] h = tt
  wire-IsAtHome redirects (s ∷ log) (g, h) =
      let home = IsGuarded-IsAtHome base s g in
      All-append (IsAtHome base) (s ∷ follow should_strip_auth s (redirects (s ∷ log)))
        (wire should_strip_auth redirects log) (home, follow-IsAtHome s (redirects (s ∷ log)) home)
        (wire-IsAtHome redirects log h)
