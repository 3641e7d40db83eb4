-- ===== src/Daemon/Connection/Guarded.antt =====
-- rust/src/daemon.rs: what gets through `connection` to an endpoint.
use mathlib.Core.List.{Memᴰ}
use dssp_bot.Prelude.{ℕ, String, true, ◌⊎◌, inl, inr, some, List, ◌≡◌, refl}
use dssp_bot.Engine.Effects.{Action, pure, ◌>>=◌}
use dssp_bot.Daemon.{Shared, Reply, error}
use dssp_bot.Daemon.Bytes.{codes}
use dssp_bot.Daemon.Http.{Checked, pass, fail, Stream, HttpRequest, get, read_request}
use dssp_bot.Daemon.Http.Accepted.{IsFramed, read_request-IsFramed}
use dssp_bot.Daemon.Route.{Config, Endpoint, is_json, needs_json, endpoint, expected_token, admit}
use dssp_bot.Daemon.Route.Authorized.{admit-IsAuthorized}
use dssp_bot.Daemon.Connection.{Meets, serve, serve_admitted, route, reply_to, response, connection}

-- The request may ask this endpoint.
pub record IsAuthorized (config : Config) (r : HttpRequest) (target : Endpoint) : Type 0 where
  pub token : get (codes "authorization") r.headers ≡ some (expected_token config)
  pub origin : (o : List ℕ) → get (codes "origin") r.headers ≡ some o → Memᴰ o config.origins
  pub json : needs_json r ≡ true → is_json (get (codes "content-type") r.headers) ≡ true
  pub names : endpoint r.method r.path ≡ pass target

module _ (meets : Meets) (config : Config) where
  -- What is answered is written.
  abbrev pub written : Action (Reply × Shared) → Action (List ℕ × Shared)
  written answer = answer >>= λ (reply, w). pure (response meets reply, w)

  -- An endpoint answers.
  pub record Serves (s : Stream) (w : Shared) (out : Action (List ℕ × Shared)) : Type 0 where
    pub request : HttpRequest
    pub rest : Stream
    pub target : Endpoint
    pub read : read_request s ≡ pass (request, rest)
    pub framed : IsFramed request
    pub authorized : IsAuthorized config request target
    pub answer : out ≡ written (serve meets config target request w)

  -- The reading of the request fails, or its admission does.
  abbrev pub Fails : Stream → ℕ → String → Type 0
  Fails s code text =
      (read_request s ≡ fail code text)
      ⊎ ((r : HttpRequest) × (rest : Stream) × (read_request s ≡ pass (r, rest))
          × (admit config r ≡ fail code text))

  -- The connection is answered with the failure, and leaves everything as it was.
  abbrev pub Refuses : Stream → Shared → Action (List ℕ × Shared) → Type 0
  Refuses s w out =
      (code : ℕ) × (text : String) × Fails s code text
      × (out ≡ pure (response meets (error code text), w))

  abbrev Guards : Stream → Shared → Action (List ℕ × Shared) → Type 0
  Guards s w out = Serves s w out ⊎ Refuses s w out

  serve_admitted-Guards :
      (s rest : Stream) (r : HttpRequest) (w : Shared)
      → read_request s ≡ pass (r, rest)
      → (admission : Checked Endpoint) → admit config r ≡ admission
      → Guards s w (written (serve_admitted meets config admission r w))
  unfolding pure ◌>>=◌
  serve_admitted-Guards s rest r w read (pass target) e =
      let (token, origin, json, named) = admit-IsAuthorized config r target e in
      inl (record {
        request = r;
        rest = rest;
        target = target;
        read = read;
        framed = (read_request-IsFramed s rest r read).0;
        authorized = record { token = token; origin = origin; json = json; names = named };
        answer = refl;
      })
  serve_admitted-Guards s rest r w read (fail code text) e =
      inr (code, text, inr (r, rest, read, e), refl)

  reply_to-Guards :
      (s : Stream) (w : Shared) (request : Checked (HttpRequest × Stream))
      → read_request s ≡ request
      → Guards s w (written (reply_to meets config request w))
  unfolding route pure ◌>>=◌
  reply_to-Guards s w (pass (r, rest)) e = serve_admitted-Guards s rest r w e (admit config r) refl
  reply_to-Guards s w (fail code text) e = inr (code, text, inl e, refl)

  -- Whatever bytes arrive on a connection: either the request is framed and authorised, and the
  -- connection does what its endpoint does and writes that endpoint's reply; or its reading or its
  -- admission fails, and the connection does nothing but write that failure, so that the worker is not
  -- asked and the state is as it was.
  pub connection-Guards :
      (s : Stream) (w : Shared)
      → Serves s w (connection meets config s w) ⊎ Refuses s w (connection meets config s w)
  unfolding connection
  connection-Guards s w = reply_to-Guards s w (read_request s) refl
