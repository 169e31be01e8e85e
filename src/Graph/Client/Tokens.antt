-- ===== src/Graph/Client/Tokens.antt =====
-- About `getAccessToken` and `graphFetch` (apps/api/src/clients/graph.client.ts).
use booking_zoom_connect.Prelude.{
  ℕ, String, Bool, true, false, ◌≡◌, refl, not, ◌⊎◌, inl, inr, Option, none, some, List, [], ◌∷◌,
  ◌+◌, ◌<◌, In, arith, str_eq, str_eq_iff, str_eq_refl, Bool-cases, Option-cases, sym, ◌∙◌, subst,
  if◌then◌else◌,
}
use booking_zoom_connect.Service.{Result, ok, err, plain_error, is_empty}
use booking_zoom_connect.Graph.Client.{
  Reply, lost, answered, TokenJson, TokenEntry, token_request, authorized, Client, Remote, Task,
  ◌>>=◌, and_then, raise, modify, pure, get_token, set_token, usable_token, lifetime_ms,
  token_entry, store_token, is_ok, send, json_or_raise, fetch_token, token_or_fetch,
  cached_or_fetch, get_access_token, graph_fetch,
}

get_token-set_token :
    (k : String) (e : TokenEntry) (l : List (String × TokenEntry))
    → get_token k (set_token k e l) ≡ some e
unfolding get_token set_token
get_token-set_token k e [] = ground (arith, str_eq_refl k)
get_token-set_token k e ((j, d) ∷ l) = ground (arith, str_eq_refl k, get_token-set_token k e l)

get_token-set_token_other :
    (i k : String) (e : TokenEntry) (l : List (String × TokenEntry))
    → str_eq k i ≡ false
    → get_token i (set_token k e l) ≡ get_token i l
unfolding get_token set_token
get_token-set_token_other i k e [] other = ground arith
get_token-set_token_other i k e ((j, d) ∷ l) other =
    ground (arith, get_token-set_token_other i k e l other, (str_eq_iff j k).0)

module _ (remote : Remote) where
  -- Microsoft gave the token to the tenant, for the time until then.
  abbrev pub IsIssued : String → String → ℕ → Type 0
  IsIssued tenant token until =
      (t : ℕ) × (j : TokenJson) × (status : ℕ) × (remote.token_reply t tenant
        ≡ answered status (some j))
      × (is_ok status ≡ true)
      × (token ≡ j.access_token)
      × (until ≡ t + lifetime_ms j.expires_in)

  -- Cached tokens are their tenants', and so is the token of each request that was sent.
  pub record IsHonest (c : Client) : Type 0 where
    pub cached :
        (tenant : String) (e : TokenEntry)
        → get_token tenant c.token_cache ≡ some e
        → IsIssued tenant e.access_token e.expires_at_ms
    pub carried :
        (tenant token : String)
        → In (authorized tenant token) c.sent
        → (until : ℕ) × IsIssued tenant token until

  -- A token to hand out: the tenant's, and good for more than a minute, or just given.
  abbrev pub IsUsable : ℕ → String → String → Type 0
  IsUsable now tenant token =
      (until : ℕ) × IsIssued tenant token until
      × ((now + 60_000 < until)
          ⊎ ((j : TokenJson) × (status : ℕ) × (remote.token_reply now tenant
                ≡ answered status (some j))
              × (token ≡ j.access_token)))

  -- What a step that yields a token promises.
  abbrev Yields : ℕ → String → Result String × Client → Type 0
  Yields now tenant r =
      IsHonest r.1 × ((token : String) → r.0 ≡ ok token → IsUsable now tenant token)

  ask-IsHonest :
      (tenant : String) (c : Client) → IsHonest c → IsHonest (send (token_request tenant) c)
  ask-IsHonest tenant c h = record {
    cached = h.cached;
    carried = λ t token m. h.carried t token (ground arith);
  }

  store_token-IsHonest :
      (tenant : String) (e : TokenEntry) (c : Client)
      → IsIssued tenant e.access_token e.expires_at_ms
      → IsHonest c
      → IsHonest (store_token tenant e c)
  unfolding store_token
  store_token-IsHonest tenant e c issued h = record {
    cached = λ t d found. elim (Bool-cases (str_eq tenant t)) [
      | inr other ↦
          h.cached t d (sym (get_token-set_token_other t tenant e c.token_cache other) ∙ found)
      | inl same ↦
          (let st : tenant ≡ t = (str_eq_iff tenant t).0 same in
            let ed : e ≡ d = ground (arith, get_token-set_token tenant e c.token_cache) in
            subst (λ (x : TokenEntry). IsIssued t x.access_token x.expires_at_ms) ed
              (subst (λ (x : String). IsIssued x e.access_token e.expires_at_ms) st issued))
    ];
    carried = h.carried;
  }

  json_or_raise_ok :
      {A : Type 0} (name : String) (r : Reply A) (c : Client)
      → ((a : A) × (status : ℕ) × (r ≡ answered status (some a))
          × (is_ok status ≡ true)
          × (json_or_raise name r c ≡ (ok a, c)))
        ⊎ ((m : String) × (json_or_raise name r c ≡ (err (plain_error m), c)))
  unfolding json_or_raise ◌>>=◌
  json_or_raise_ok name lost c = inr ("fetch failed", refl)
  json_or_raise_ok name (answered status none) c = elim (Bool-cases (is_ok status)) [
    | inl good ↦ inr ("invalid JSON", ground arith)
    | inr bad ↦ inr (name, ground arith)
  ]
  json_or_raise_ok name (answered status (some a)) c = elim (Bool-cases (is_ok status)) [
    | inl good ↦ inl (a, status, refl, good, ground arith)
    | inr bad ↦ inr (name, ground arith)
  ]

  module _ (now : ℕ) (tenant : String) where
    fetch_token-Yields :
        (c : Client) → IsHonest c → Yields now tenant (fetch_token remote now tenant c)
    unfolding fetch_token ◌>>=◌
    fetch_token-Yields c h =
        elim (json_or_raise_ok "Graph token failed" (remote.token_reply now tenant)
          (send (token_request tenant) c)) [
            | inr (m, e) ↦
                (let run : fetch_token remote now tenant c
                      ≡ (err (plain_error m), send (token_request tenant) c) =
                    ground arith in
                  subst (Yields now tenant) (sym run)
                    (ask-IsHonest tenant c h, λ token f. ground arith))
            | inl (j, status, reply, good, e) ↦
                (let run : fetch_token remote now tenant c ≡ (
                  ok j.access_token,
                  store_token tenant (token_entry now j) (send (token_request tenant) c),
                ) =
                    ground arith in
                  let issued : IsIssued tenant j.access_token (now + lifetime_ms j.expires_in) =
                    (now, j, status, reply, good, refl, refl) in
                  subst (Yields now tenant) (sym run) (
                    store_token-IsHonest tenant (token_entry now j) _ issued
                        (ask-IsHonest tenant c h),
                    λ token f.
                        let same : token ≡ j.access_token = ground arith in
                        subst (IsUsable now tenant) (sym same)
                          (now + lifetime_ms j.expires_in, issued, inr (j, status, reply, refl)),
                  ))
          ]

    usable_token-some :
        (o : Option TokenEntry) (token : String)
        → usable_token now o ≡ some token
        → (e : TokenEntry) × (o ≡ some e)
          × (token ≡ e.access_token)
          × (now + 60_000 < e.expires_at_ms)
    usable_token-some none token u = ground arith
    usable_token-some (some e) token u = (e, refl, ground arith, ground arith)

    looked_up-Yields :
        (c : Client)
        → IsHonest c
        → Yields now tenant
            (token_or_fetch remote now tenant (usable_token now (get_token tenant c.token_cache)) c)
    unfolding token_or_fetch ◌>>=◌
    looked_up-Yields c h = elim (Option-cases (usable_token now (get_token tenant c.token_cache))) [
      | inl miss ↦
          subst (λ (o : Option String). Yields now tenant (token_or_fetch remote now tenant o c))
            (sym miss) (fetch_token-Yields c h)
      | inr (token, hit) ↦
          (let (e, found, same, fresh) =
              usable_token-some (get_token tenant c.token_cache) token hit in
            let usable : IsUsable now tenant e.access_token =
              (e.expires_at_ms, h.cached tenant e found, inl fresh) in
            subst (λ (o : Option String). Yields now tenant (token_or_fetch remote now tenant o c))
              (sym hit)
              (
                h,
                λ t f.
                    let same' : t ≡ e.access_token = ground arith in
                    subst (IsUsable now tenant) (sym same') usable,
              ))
    ]

    if-Yields :
        (b : Bool) (m n : Task String) (c : Client)
        → Yields now tenant (m c)
        → Yields now tenant (n c)
        → Yields now tenant ((if b then m else n) c)
    if-Yields true m n c y z = y
    if-Yields false m n c y z = z

    -- A token that is handed out is one that Microsoft gave to the tenant, and it either stays good for
    -- more than a minute or was given just now; and the client stays honest, whether the call returns
    -- or throws.
    pub get_access_token-Yields :
        (c : Client) → IsHonest c → Yields now tenant (get_access_token remote now tenant c)
    unfolding get_access_token cached_or_fetch ◌>>=◌
    get_access_token-Yields c h =
        let refused : (m : String) → Yields now tenant (err (plain_error m), c) =
          λ m. (h, λ t f. ground arith) in
        if-Yields (is_empty tenant) (raise (plain_error "m365TenantId required"))
          (if not remote.has_credentials
            then raise (plain_error "MS_CLIENT_ID/MS_CLIENT_SECRET required")
            else cached_or_fetch remote now tenant)
          c (refused "m365TenantId required")
          (if-Yields (not remote.has_credentials)
            (raise (plain_error "MS_CLIENT_ID/MS_CLIENT_SECRET required"))
            (cached_or_fetch remote now tenant) c (refused "MS_CLIENT_ID/MS_CLIENT_SECRET required")
            (looked_up-Yields c h))

  after_token :
      {A : Type 0} (now : ℕ) (tenant : String) (answer : String → Reply A) (r : Result String)
      (c : Client)
      → Yields now tenant (r, c)
      → IsHonest
          (and_then r
            (λ token. modify (send (authorized tenant token)) >>= λ _. pure (answer token))
            c).1
  unfolding ◌>>=◌
  after_token now tenant answer (err e) c (h, y) = h
  after_token now tenant answer (ok token) c (h, y) =
      let (until, issued, when) = y token refl in
      record {
        cached = h.cached;
        carried = λ t x m. elim m [
          | inl here ↦
              (let et : tenant ≡ t = ground arith in
                let ex : token ≡ x = ground arith in
                (
                  until,
                  subst (λ (y : String). IsIssued y x until) et
                      (subst (λ (y : String). IsIssued tenant y until) ex issued),
                ))
          | inr before ↦ h.carried t x before
        ];
      }

  -- A request that is sent carries a token of its tenant: the client stays honest, whatever the call
  -- and whether it returns or throws.
  pub graph_fetch-IsHonest :
      {A : Type 0} (now : ℕ) (tenant : String) (answer : String → Reply A) (c : Client)
      → IsHonest c
      → IsHonest (graph_fetch remote now tenant answer c).1
  unfolding graph_fetch ◌>>=◌
  graph_fetch-IsHonest now tenant answer c h =
      let (r, c') = get_access_token remote now tenant c in
      after_token now tenant answer r c' (get_access_token-Yields now tenant c h)
