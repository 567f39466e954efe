-- ===== src/Http/Message.antt =====
-- Requests, and what `http.ResponseWriter` sends of the calls of a handler. A header goes by its
-- canonical name. JSON that is written is the object that is encoded.
use cache_grid.Base.{
  ℕ, Bytes, Bytes-discrete, List, [], ◌∷◌, ◌++◌, Option, none, some, Bool, true, false, lookup,
  codes,
}
use cache_grid.Base.Int.{ℤ}
use cache_grid.Base.GoMap.{insert}
use cache_grid.Facade.Parts.{Effect}

-- A body, or none for one whose reading fails. The path is that of a clean URL, as the list of its
-- segments.
pub record Request : Type 0 where
  pub method : Bytes
  pub path : List Bytes
  pub headers : List (Bytes × Bytes)
  pub body : Option Bytes

unfoldable pub header : Request → Bytes → Bytes
header r name = elim (lookup Bytes-discrete name r.headers) [ none ↦ [] | some value ↦ value ]

pub data Json : Type 0 where
  text : Bytes → Json
  number : ℤ → Json
  flag : Bool → Json

-- A part of a body: bytes, an object, the object about the cluster with its nodes, or an event of a
-- stream with its data.
pub data Chunk : Type 0 where
  raw : Bytes → Chunk
  object : List (Bytes × Json) → Chunk
  event : List (Bytes × Json) → Chunk
  nodes : List (Bytes × Json) → List (List (Bytes × Json)) → Chunk

-- What has been sent, and whether the writer can flush. `status_code` is what a `statusWriter`
-- around it has seen.
pub record Writer : Type 0 where
  pub status : Option ℕ
  pub headers : List (Bytes × Bytes)
  pub body : List Chunk
  pub flusher : Bool
  pub status_code : ℕ

-- The writer that the server makes for a connection.
abbrev pub new_writer : Writer
new_writer = record { status = none; headers = []; body = []; flusher = true; status_code = 200 }

-- Headers are sent with the status.
unfoldable pub set_header : Writer → Bytes → Bytes → Writer
set_header w name value = elim w.status [
  | none ↦ record w { headers = insert Bytes-discrete name value w.headers }
  | some _ ↦ w
]

-- The first status is the one that is sent.
unfoldable pub write_header : Writer → ℕ → Writer
write_header w code = elim w.status [
  | none ↦ record w { status = some code; status_code = code }
  | some _ ↦ record w { status_code = code }
]

unfoldable pub write : Writer → Chunk → Writer
write w chunk = elim w.status [
  | none ↦ record w { status = some 200; body = w.body ++ chunk ∷ [] }
  | some _ ↦ record w { body = w.body ++ chunk ∷ [] }
]

unfoldable pub write_json : Writer → ℕ → Chunk → Writer
unfolding set_header write_header write
write_json w status v =
    write (write_header (set_header w (codes "Content-Type") (codes "application/json")) status) v

unfoldable pub write_error : Writer → ℕ → Bytes → Writer
unfolding write_json
write_error w status msg = write_json w status (object ((codes "error", text msg) ∷ []))

-- A line of the log: a request with the status of its answer, or a panic.
pub data LogLine : Type 0 where
  served : Bytes → List Bytes → ℕ → LogLine
  recovered : LogLine

-- What comes of a request: the state, what was written, whether the handler panicked, the effects,
-- and the log.
pub record Outcome (S : Type 0) : Type 0 where
  pub state : S
  pub writer : Writer
  pub panicked : Bool
  pub effects : List Effect
  pub logs : List LogLine

abbrev pub Handler : Type 0 → Type 0
Handler S = S → Writer → Request → Outcome S

abbrev pub answer : {S : Type 0} → S → Writer → List Effect → Outcome S
answer state w effects = record {
  state = state;
  writer = w;
  panicked = false;
  effects = effects;
  logs = [];
}
