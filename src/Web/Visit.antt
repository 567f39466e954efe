-- ===== src/Web/Visit.antt =====
-- What middleware.go reads of a request, and the handlers that it wraps.
use cache_grid.Base.{ℕ, Bytes, [], ◌∷◌, ◌==◌, if◌then◌else◌, codes}
use cache_grid.Facade.Limits.{Limiters}
use cache_grid.Facade.Parts.{Store, Cache}
use cache_grid.Http.Message.{Request, header, Writer, Outcome}
use cache_grid.Http.Text.{trim_space}
use cache_grid.Limit.Float.{Float64}
use cache_grid.Rpc.Client.{Network}

-- The URL is `r.URL.String()`.
pub record Visit : Type 0 where
  pub request : Request
  pub url : Bytes
  pub remote_addr : Bytes

-- A program that uses a cache and has a state `A` of its own.
pub record App (st : Store) (n : Network) (fl : Float64) (A : Type 0) : Type 0 where
  pub cache : Cache st n
  pub limiters : Limiters fl
  pub own : A

abbrev pub VisitHandler : Type 0 → Type 0
VisitHandler S = S → Writer → Visit → Outcome S

-- The text before the first `c`, or all of it.
unfoldable pub before : ℕ → Bytes → Bytes
before c [] = []
before c (x ∷ s) = let rest = before c s in if x == c then [] else x ∷ rest

-- The first address of `X-Forwarded-For`, or `X-Real-IP`, or what stands before the first colon of
-- the address of the connection.
unfoldable pub client_ip : Visit → Bytes
unfolding before
client_ip v = elim (header v.request (codes "X-Forwarded-For")) [
  | c ∷ rest ↦ trim_space (before b',' (c ∷ rest))
  | [] ↦ elim (header v.request (codes "X-Real-Ip")) [
    | c ∷ rest ↦ c ∷ rest
    | [] ↦ before b':' v.remote_addr
  ]
]
