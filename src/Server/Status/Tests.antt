-- ===== src/Server/Status/Tests.antt =====
-- Two requests that come in either order.
use mathlib.Core.List.Perm
use infer_flow.Prelude.{ℕ, ◌≡◌, List, [], ◌∷◌}
use infer_flow.Text.{Text, codes}
use infer_flow.Cache.Memory.{MemoryStore, new_memory_store}
use infer_flow.Server.Samples.{config, one_memory}
use infer_flow.Server.State.{Server, new_server}
use infer_flow.Server.Status.{handle_metrics}
use infer_flow.Server.Status.Unordered.{recorded, handle_metrics_unordered}

abbrev fresh_server : Server MemoryStore ℕ ℕ
fresh_server = new_server config new_memory_store one_memory

abbrev used : List Text
used = codes "random" ∷ codes "kv_aware" ∷ []

abbrev used_late : List Text
used_late = codes "kv_aware" ∷ codes "random" ∷ []

abbrev unquoted : Text → Text
unquoted s = s

handle_metrics_unordered_example :
    handle_metrics unquoted
      (record fresh_server { metrics = recorded used used fresh_server.metrics })
    ≡ handle_metrics unquoted
        (record fresh_server { metrics = recorded used_late used_late fresh_server.metrics })
handle_metrics_unordered_example =
    handle_metrics_unordered unquoted fresh_server used used_late used used_late
      (Perm.swap (codes "kv_aware") (codes "random") [])
      (Perm.swap (codes "kv_aware") (codes "random") [])
