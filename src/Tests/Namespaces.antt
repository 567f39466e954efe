-- ===== src/Tests/Namespaces.antt =====
-- Two namespaces of namespace.go, of which one continues the other.
use cache_grid.Base.{Bytes, ◌≡◌, ◌↔◌, refl, ◌∷◌, ◌++◌, none, codes, arith}
use cache_grid.Base.Int.{pos}
use cache_grid.Shard.State.{new_shard}
use cache_grid.Facade.Parts.{bytes, bytes_dest, serialize, deserialize}
use cache_grid.Facade.Routing.{owner_addr}
use cache_grid.Facade.Ops.{is_zero}
use cache_grid.Facade.Reads.{effective_ttl}
use cache_grid.Facade.Backend.{memory, Admits, memory-ReadsBack}
use cache_grid.Facade.Namespace
use cache_grid.Facade.Namespace.{prefix_key}
use cache_grid.Facade.Isolation.{Meets, prefix_key-eq, get-set_crossed}
use cache_grid.Tests.Counters.{digits}
use cache_grid.Tests.Data.{value_2}
use cache_grid.Tests.Facades.{numbers, no_match, alone}
use cache_grid.Tests.Stores.{store, store-IsValid, store_code}

prefix_key-eq_example :
    (prefix_key (codes "acme") (codes "eu:cart") ≡ prefix_key (codes "acme:eu") (codes "cart"))
    ↔ Meets (codes "acme") (codes "eu:cart") (codes "acme:eu") (codes "cart")
prefix_key-eq_example =
    prefix_key-eq (codes "acme") (codes "eu:cart") (codes "acme:eu") (codes "cart")

abbrev shared_key : Bytes
unfolding prefix_key
shared_key = prefix_key (codes "acme") (codes "eu" ++ b':' ∷ codes "cart")

shared_key-Admits : Admits store shared_key value_2
unfolding store_code shared_key new_shard
shared_key-Admits = (store-IsValid, (new_shard (pos 400), refl, λ h. omega arith))

get-set_crossed_example :
    let (c', err, _) =
      Namespace.set no_match numbers
        (codes "acme")
        alone
        (codes "eu" ++ b':' ∷ codes "cart")
        (bytes value_2)
        (pos 7)
        12 in
    (err ≡ none)
    × ((Namespace.get no_match numbers
          (codes "acme" ++ b':' ∷ codes "eu")
          c'
          (codes "cart")
          bytes_dest
          19).1
        ≡ deserialize numbers value_2 bytes_dest)
unfolding owner_addr serialize effective_ttl is_zero prefix_key
get-set_crossed_example =
    get-set_crossed no_match numbers (memory digits) Admits alone (codes "acme") (codes "eu")
      (codes "cart") value_2 (bytes value_2) bytes_dest (pos 7) 12 19 (memory-ReadsBack digits) refl
      refl refl shared_key-Admits (λ h. omega arith)
