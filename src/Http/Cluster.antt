-- ===== src/Http/Cluster.antt =====
-- handler_cluster.go: what the server tells of its node and its cluster.
use cache_grid.Base.{ℕ, Bytes, List, [], ◌∷◌, ◌++◌, map, none, some, Bool, codes}
use cache_grid.Base.Int.{pos, sub_ℕ}
use cache_grid.Facade.Bulk.{len}
use cache_grid.Facade.Parts.{Store, Marshaller}
use cache_grid.Http.Message.{
  Request, Json, text, number, raw, object, nodes, Writer, set_header, write, write_json, Outcome,
  answer,
}
use cache_grid.Http.Server.{Server, Packages, decimal}
use cache_grid.Limit.Float.{Float64}
use cache_grid.Nodes.State.{NodeInfo, status_name, all_nodes, node_count, self_name}
use cache_grid.Rpc.Client.{Network}

unfoldable pub node_fields : Packages → NodeInfo → List (Bytes × Json)
node_fields p node =
    (codes "name", text node.name)
    ∷ (codes "addr", text node.addr)
    ∷ (codes "rpc_addr", text node.rpc_addr)
    ∷ (codes "http_addr", text node.http_addr)
    ∷ (codes "status", text (status_name node.status))
    ∷ (codes "joined_at", text (p.format_time node.joined_at))
    ∷ []

-- The lines of one metric.
unfoldable pub metric : Bytes → Bytes → Bytes → Bytes → Bytes
metric name help value end =
    codes "# HELP "
    ++ name
    ++ codes " "
    ++ help
    ++ 10 ∷ codes "# TYPE "
    ++ name
    ++ codes " gauge"
    ++ 10 ∷ name
    ++ codes " "
    ++ value
    ++ end

module _ (matches : Bytes → Bytes → Bool) {V : Type 0} (m : Marshaller V) (p : Packages)
    {st : Store} {n : Network} {fl : Float64} where
  unfoldable pub handle_cluster_nodes : Server st n fl → Writer → Request → Outcome (Server st n fl)
  unfolding node_fields
  handle_cluster_nodes s w r = elim s.cache.cluster [
    | none ↦ answer s (write_json w 200 (nodes ((codes "mode", text (codes "local")) ∷ []) [])) []
    | some (ring, cs) ↦
        let fields =
          (codes "self", text (self_name cs))
          ∷ (codes "node_count", number (pos (node_count cs)))
          ∷ [] in
        answer s (write_json w 200 (nodes fields (map (node_fields p) (all_nodes cs)))) []
  ]

  unfoldable pub handle_health :
      (ℕ → ℕ) → Server st n fl → Writer → Request → Outcome (Server st n fl)
  handle_health clock s w r =
      let more : List (Bytes × Json) = elim s.cache.cluster [
        | none ↦ []
        | some (ring, cs) ↦ (codes "cluster_nodes", number (pos (node_count cs))) ∷ []
      ] in
      let fields =
        (codes "status", text (codes "ok"))
        ∷ (codes "uptime", text (p.duration_string (sub_ℕ (clock 0) s.start_time)))
        ∷ (codes "keys", number (pos (len matches m s.cache)))
        ∷ more in
      answer s (write_json w 200 (object fields)) []

  -- The bodies of the successive prints are written as one.
  unfoldable pub handle_metrics :
      (ℕ → ℕ) → Server st n fl → Writer → Request → Outcome (Server st n fl)
  unfolding metric
  handle_metrics clock s w r =
      let w' =
        set_header w (codes "Content-Type") (codes "text/plain; version=0.0.4; charset=utf-8") in
      let gap = 10 ∷ 10 ∷ [] in
      let cluster : Bytes = elim s.cache.cluster [
        | none ↦ []
        | some (ring, cs) ↦
            metric (codes "cachegrid_cluster_nodes") (codes "Number of cluster nodes")
              (decimal (node_count cs)) (10 ∷ [])
      ] in
      let lines =
        metric (codes "cachegrid_keys_total") (codes "Total number of keys in cache")
          (decimal (len matches m s.cache)) gap
        ++ metric (codes "cachegrid_uptime_seconds") (codes "Server uptime in seconds")
            (p.whole_seconds (sub_ℕ (clock 1) s.start_time)) gap
        ++ metric (codes "cachegrid_go_goroutines") (codes "Number of goroutines")
            (decimal (p.goroutines (clock 2))) gap
        ++ metric (codes "cachegrid_go_memstats_alloc_bytes")
            (codes "Number of bytes allocated and still in use") (decimal (p.alloc (clock 0))) gap
        ++ metric (codes "cachegrid_go_memstats_sys_bytes")
            (codes "Number of bytes obtained from system") (decimal (p.sys (clock 0))) gap
        ++ cluster in
      answer s (write w' (raw lines)) []
