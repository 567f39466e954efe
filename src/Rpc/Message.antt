-- ===== src/Rpc/Message.antt =====
-- `request` and `response` of internal/transport/rpc.go, and the two interfaces of transport.go. An
-- int64 is its 64-bit pattern.
use cache_grid.Base.{ℕ, Bytes, List, [], Option, Bool, false}
use cache_grid.Base.Int.{ℤ, pos}

abbrev pub op_get : ℕ
op_get = 1

abbrev pub op_set : ℕ
op_set = 2

abbrev pub op_delete : ℕ
op_delete = 3

abbrev pub op_exists : ℕ
op_exists = 4

abbrev pub op_mget : ℕ
op_mget = 5

abbrev pub op_incr : ℕ
op_incr = 6

abbrev pub op_lock_acquire : ℕ
op_lock_acquire = 7

abbrev pub op_lock_release : ℕ
op_lock_release = 8

abbrev pub op_lock_extend : ℕ
op_lock_extend = 9

pub record Request : Type 0 where
  pub op : ℕ
  pub key : Bytes
  pub keys : List Bytes
  pub value : Bytes
  pub ttl : ℤ
  pub tags : List Bytes
  pub delta : ℕ
  pub token : Bytes

-- The fields that a literal leaves out are zero.
abbrev pub request : ℕ → Bytes → Request
request op key = record {
  op = op;
  key = key;
  keys = [];
  value = [];
  ttl = pos 0;
  tags = [];
  delta = 0;
  token = [];
}

pub record Response : Type 0 where
  pub value : Bytes
  pub values : List (Bytes × Bytes)
  pub found : Bool
  pub ok : Bool
  pub int_val : ℕ
  pub token : Bytes
  pub fencing_token : ℕ
  pub acquired : Bool
  pub error : Bytes

abbrev pub response : Response
response = record {
  value = [];
  values = [];
  found = false;
  ok = false;
  int_val = 0;
  token = [];
  fencing_token = 0;
  acquired = false;
  error = [];
}

-- `LocalHandler`: what it does to its node, whose state is `S`. An error of `HandleIncr` is its text.
pub record LocalHandler (S : Type 0) : Type 0 where
  pub handle_get : S → Bytes → S × Bytes × Bool
  pub handle_set : S → Bytes → Bytes → ℤ → List Bytes → S
  pub handle_delete : S → Bytes → S × Bool
  pub handle_exists : S → Bytes → S × Bool
  pub handle_mget : S → List Bytes → S × List (Bytes × Bytes)
  pub handle_incr : S → Bytes → ℕ → S × ℕ × Option Bytes
  pub handle_lock_acquire : S → Bytes → ℤ → S × Bytes × ℕ × Bool
  pub handle_lock_release : S → Bytes → Bytes → S × Bool
  pub handle_lock_extend : S → Bytes → Bytes → ℤ → S × Bool
