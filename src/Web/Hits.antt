-- ===== src/Web/Hits.antt =====
-- A response that `HTTPCache` stored, and the requests that it answers.
use mathlib.Core.Option
use cache_grid.Facade.Ops
use cache_grid.Web.Visit.{Visit}
