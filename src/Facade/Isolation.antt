-- ===== src/Facade/Isolation.antt =====
-- Which keys of two namespaces of namespace.go are one key of the cache.
use cache_grid.Base.{
  ℕ, ◌≡◌, ◌⊎◌, ◌↔◌, inl, inr, refl, sym, ap, Bytes, [], ◌∷◌, ◌++◌, none, some, Bool, false,
}
use cache_grid.Base.Int.{ℤ}
use cache_grid.Shard.Reads.{InTime}
use cache_grid.Rpc.Client.{Network}
use cache_grid.Facade.Parts.{Store, Marshaller, Value, Dest, serialize, deserialize, Cache}
use cache_grid.Facade.Routing.{owner_addr}
use cache_grid.Facade.Ops.{is_empty}
use cache_grid.Facade.Reads.{ReadsBack, effective_ttl, get-set_here}
use cache_grid.Facade.Namespace
use cache_grid.Facade.Namespace.{prefix_key}

-- The second namespace continues the first one behind a colon, and the key of the first one starts
-- with what the second one has more.
abbrev pub Crosses : Bytes → Bytes → Bytes → Bytes → Type 0
Crosses namespace key namespace' key' =
    (rest : Bytes) × (namespace' ≡ namespace ++ b':' ∷ rest) × (key ≡ rest ++ b':' ∷ key')

abbrev pub Meets : Bytes → Bytes → Bytes → Bytes → Type 0
Meets namespace key namespace' key' =
    ((namespace ≡ namespace') × (key ≡ key'))
    ⊎ (Crosses namespace key namespace' key' ⊎ Crosses namespace' key' namespace key)

Meets-cons :
    (c d : ℕ) (l key l' key' : Bytes)
    → c ≡ d
    → Meets l key l' key'
    → Meets (c ∷ l) key (d ∷ l') key'
Meets-cons c d l key l' key' e (inl (same, keys)) = inl (cc, keys)
Meets-cons c d l key l' key' e (inr (inl (rest, longer, keys))) = inr (inl (rest, cc, keys))
Meets-cons c d l key l' key' e (inr (inr (rest, longer, keys))) = inr (inr (rest, cc, keys))

prefix_key-Meets :
    (l key l' key' : Bytes) → l ++ b':' ∷ key ≡ l' ++ b':' ∷ key' → Meets l key l' key'
prefix_key-Meets [] key [] key' h = inl (refl, cc)
prefix_key-Meets [] key (d ∷ l') key' h = inr (inl (l', cc, cc))
prefix_key-Meets (c ∷ l) key [] key' h = inr (inr (l, cc, cc))
prefix_key-Meets (c ∷ l) key (d ∷ l') key' h =
    Meets-cons c d l key l' key' (cc) (prefix_key-Meets l key l' key' (cc))

append-cons :
    (l rest key : Bytes) → (l ++ b':' ∷ rest) ++ b':' ∷ key ≡ l ++ b':' ∷ (rest ++ b':' ∷ key)
append-cons [] rest key = refl
append-cons (c ∷ l) rest key = ap (λ s. c ∷ s) (append-cons l rest key)

Crosses-prefix_key :
    (l key l' key' : Bytes) → Crosses l key l' key' → prefix_key l' key' ≡ prefix_key l key
unfolding prefix_key
Crosses-prefix_key l key l' key' (rest, longer, keys) = rw (longer, keys) (append-cons l rest key')

-- Two keys of two namespaces are the same key of the cache exactly if namespaces and keys are the
-- same, or one namespace continues the other behind a colon and the key of the shorter one starts
-- with the rest and a colon, before the other key.
pub prefix_key-eq :
    (namespace key namespace' key' : Bytes)
    → (prefix_key namespace key ≡ prefix_key namespace' key') ↔ Meets namespace key namespace' key'
unfolding prefix_key
prefix_key-eq l key l' key' = (prefix_key-Meets l key l' key', back)
  where
    back : Meets l key l' key' → l ++ b':' ∷ key ≡ l' ++ b':' ∷ key'
    back (inl (same, keys)) = cc
    back (inr (inl crossed)) = sym (Crosses-prefix_key l key l' key' crossed)
    back (inr (inr crossed)) = Crosses-prefix_key l' key' l key crossed

is_empty-prefix_key : (namespace key : Bytes) → is_empty (prefix_key namespace key) ≡ false
unfolding prefix_key is_empty
is_empty-prefix_key [] key = refl
is_empty-prefix_key (c ∷ namespace) key = refl

-- On an open cache, in any mode, for a key that is served on this node, the empty one included: what
-- is set in a namespace, under a key with a colon, is read in the namespace that is longer by what
-- stands before the colon, under what stands after it, until its lifetime has passed, over a store
-- that reads back what it admits.
pub get-set_crossed :
    (matches : Bytes → Bytes → Bool) {V : Type 0} (m : Marshaller V) (st : Store) {n : Network}
    (Admits : st.S → Bytes → Bytes → Type 0) (c : Cache st n) (namespace rest key raw : Bytes)
    (value : Value V) (dest : Dest) (ttl : ℤ) (now later : ℕ)
    → ReadsBack st Admits
    → owner_addr c.cluster (prefix_key namespace (rest ++ b':' ∷ key)) ≡ []
    → c.closed ≡ false
    → serialize m value ≡ some raw
    → Admits c.store (prefix_key namespace (rest ++ b':' ∷ key)) raw
    → InTime (effective_ttl c.config.default_ttl ttl) now later
    → let (c', err, _) = Namespace.set matches m namespace c (rest ++ b':' ∷ key) value ttl now in
      (err ≡ none)
      × ((Namespace.get matches m (namespace ++ b':' ∷ rest) c' key dest later).1
          ≡ deserialize m raw dest)
unfolding Namespace.set Namespace.get
get-set_crossed matches m st Admits c namespace rest key raw value dest ttl now later law here
      open_cache written admits time =
    let shared =
      Crosses-prefix_key namespace (rest ++ b':' ∷ key) (namespace ++ b':' ∷ rest) key
        (rest, refl, refl) in
    rw shared (
      get-set_here matches m st Admits c (prefix_key namespace (rest ++ b':' ∷ key)) raw value dest
        ttl now later law here (is_empty-prefix_key namespace (rest ++ b':' ∷ key)) open_cache
        written admits time)
