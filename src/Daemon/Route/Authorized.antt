-- ===== src/Daemon/Route/Authorized.antt =====
-- rust/src/daemon.rs, `route`: which requests reach an endpoint.
use mathlib.Core.Path.{subst}
use mathlib.Core.List.{Memᴰ}
use dssp_bot.Prelude.{
  ℕ, Bool, true, not, ◌&&◌, ◌||◌, ◌==◌, ◌⊎◌, inl, inr, Option, none, some, unwrap_or, List, [], ◌∷◌,
  ◌≡◌, refl, sym, ap, arith,
}
use dssp_bot.Daemon.Bytes.{codes, bytes_eq}
use dssp_bot.Daemon.Token.{equal_token, equal_token_iff}
use dssp_bot.Daemon.Http.{pass, HttpRequest, get}
use dssp_bot.Daemon.Http.Framing.{passed_guard}
use dssp_bot.Daemon.Route.{
  Config, Endpoint, is_either, allowed_origin, is_json, needs_json, endpoint, expected_token, admit,
}

presented :
    (o : Option (List ℕ)) (b : ℕ) (bs : List ℕ) → unwrap_or o [] ≡ b ∷ bs → o ≡ some (b ∷ bs)
presented none b bs e = cc
presented (some x) b bs e = ap some e

both : (a b : Bool) → (a && b) ≡ true → (a ≡ true) × (b ≡ true)
both a b h = ground arith

one_of : (a b : Bool) → (a || b) ≡ true → (a ≡ true) ⊎ (b ≡ true)
one_of a b h = ground arith

declared : (needed json : Bool) → not (needed && not json) ≡ true → needed ≡ true → json ≡ true
declared needed json h k = ground arith

bytes_eq_lem : (xs ys : List ℕ) → bytes_eq xs ys ≡ true → xs ≡ ys
bytes_eq_lem [] [] h = refl
bytes_eq_lem [] (y ∷ ys) h = cc
bytes_eq_lem (x ∷ xs) [] h = cc
bytes_eq_lem (x ∷ xs) (y ∷ ys) h =
    let (first, others) = both (x == y) (bytes_eq xs ys) h in
    let same : x ≡ y = ground (arith, first) in let rest : xs ≡ ys = bytes_eq_lem xs ys others in cc

is_either-Memᴰ : (text : List ℕ) (xs : List (List ℕ)) → is_either text xs ≡ true → Memᴰ text xs
is_either-Memᴰ text [] h = cc
is_either-Memᴰ text (x ∷ xs) h = elim (one_of (bytes_eq x text) (is_either text xs) h) [
  | inl e ↦ Memᴰ.head (sym (bytes_eq_lem x text e))
  | inr e ↦ Memᴰ.tail (is_either-Memᴰ text xs e)
]

listed :
    (origins : List (List ℕ)) (o : Option (List ℕ))
    → allowed_origin origins o ≡ true
    → (origin : List ℕ) → o ≡ some origin
    → Memᴰ origin origins
listed origins none h origin e = cc
listed origins (some named) h origin e =
    let same : named ≡ origin = cc in
    subst (λ x. Memᴰ x origins) same (is_either-Memᴰ named origins h)

module _ (config : Config) (r : HttpRequest) (target : Endpoint) where
  -- Only a request that presents the token, whose origin is listed where it names one, and whose
  -- body is declared as JSON where it is a command or a batch, reaches an endpoint.
  pub admit-IsAuthorized :
      admit config r ≡ pass target
      → (get (codes "authorization") r.headers ≡ some (expected_token config))
        × ((origin : List ℕ)
            → get (codes "origin") r.headers ≡ some origin
            → Memᴰ origin config.origins)
        × (needs_json r ≡ true → is_json (get (codes "content-type") r.headers) ≡ true)
        × (endpoint r.method r.path ≡ pass target)
  unfolding admit
  admit-IsAuthorized e =
      let (token, e1) =
        passed_guard
          (equal_token (unwrap_or (get (codes "authorization") r.headers) [])
            (expected_token config))
          401 "valid bearer token required" _ target e in
      let (origin, e2) =
        passed_guard (allowed_origin config.origins (get (codes "origin") r.headers)) 403
          "Origin is not allowed" _ target e1 in
      let (json, e3) =
        passed_guard (not (needs_json r && not (is_json (get (codes "content-type") r.headers))))
          415 "Content-Type application/json required" _ target e2 in
      (
        presented _ _ _ ((equal_token_iff _ _).0 token),
        listed config.origins (get (codes "origin") r.headers) origin,
        λ h. declared (needs_json r) (is_json (get (codes "content-type") r.headers)) json h,
        e3,
      )
